-- ===== src/Server/Requests.antt =====
-- server/utils.go, and MsgToPeer and SendToPeer of server/rpc_peer.go: how a request is read, and how a
-- node sends one to every peer that it knows and waits for them.
pub mod Laws
pub mod Order
use alice_tss.Base.{
  ℕ, zero, suc, ◌+◌, ◌-◌, ◌==◌, Option, none, some, List, [], ◌∷◌, ◌++◌, ◌⊎◌, inl, inr, Bytes, Text,
  Result, ok, err, panic, Error, invalid_message, if◌then◌else◌,
}
use alice_tss.Peer.Manager.{Heap, P2pManager, peer_ids, target_of}
use alice_tss.Peer.Transport.{AddrInfo}
use alice_tss.Peer.Transport.Retry.{retry}

-- `UnmarshalRequest`, over what JSON and proto make of the data: JSON first.
abbrev or_proto : {T : Type 0} → Result T → Result T
or_proto (ok r) = ok r
or_proto (err e) = err invalid_message
or_proto (panic p) = panic p

abbrev or_else : {T : Type 0} → Result T → Result T → Result T
or_else (ok r) other = ok r
or_else (err e) other = or_proto other
or_else (panic p) other = panic p

unfoldable pub unmarshal_request :
    {T : Type 0} → (Bytes → Result T) → (Bytes → Result T) → Bytes → Result T
unmarshal_request from_json from_proto bytes = or_else (from_json bytes) (from_proto bytes)

-- What the network answers to one attempt: multiaddr, libp2p's `Connect` and the call of gorpc.
pub record Link (Reply : Type 0) : Type 0 where
  pub parse_addr : Text → Text ⊎ Error
  pub addr_info : Text → AddrInfo ⊎ Error
  pub dial : AddrInfo → Option Error
  pub call : Text → Text → Text → Bytes → Reply ⊎ Error

-- `PeerArgs`
pub record PeerArgs : Type 0 where
  pub peer_addr_target : Text
  pub svc_name : Text
  pub svc_method : Text
  pub payload : Bytes

abbrev then_sum : {A B : Type 0} → A ⊎ Error → (A → B ⊎ Error) → B ⊎ Error
then_sum (inl a) f = f a
then_sum (inr e) f = inr e

abbrev pub args_for : Heap → P2pManager → Text → Text → Bytes → Text → PeerArgs
args_for h pm svc_name svc_method payload peer_id = record {
  peer_addr_target = target_of h pm peer_id;
  svc_name = svc_name;
  svc_method = svc_method;
  payload = payload;
}

module _ {Reply : Type 0} where
  abbrev dialled : Link Reply → PeerArgs → AddrInfo → Option Error → Reply ⊎ Error
  dialled k args info none = k.call info.id args.svc_name args.svc_method args.payload
  dialled k args info (some e) = inr e

  -- `MsgToPeer`
  unfoldable pub msg_to_peer : Link Reply → PeerArgs → Reply ⊎ Error
  msg_to_peer k args =
      then_sum (k.parse_addr args.peer_addr_target)
        (λ ma. then_sum (k.addr_info ma) (λ info. dialled k args info (k.dial info)))

  -- `SendToPeer`: the network at each attempt, by its number; `none` where the fuel ends first.
  unfoldable pub send_to_peer : (ℕ → Link Reply) → PeerArgs → ℕ → Option (Reply × ℕ)
  send_to_peer links args fuel = retry (λ i. msg_to_peer (links i) args) fuel 0

  abbrev waited : ℕ → List (Text × Reply) → Option (List (Text × Reply))
  waited wg sent = if wg == 0 then some sent else none

  -- The loop of `RpcToPeer`, and `wg.Wait()` behind it: the wait group, and the replies so far. The
  -- network may be another for each peer. `SendToPeer` returns no error.
  unfoldable pub send_to_all :
      (Text → ℕ → Link Reply)
      → (Text → PeerArgs)
      → ℕ
      → List Text
      → ℕ
      → List (Text × Reply)
      → Option (List (Text × Reply))
  unfolding send_to_peer
  send_to_all links args fuel [] wg sent = waited wg sent
  send_to_all links args fuel (k ∷ ids) wg sent = elim (send_to_peer (links k) (args k) fuel) [
    | none ↦ none
    | some (reply, _) ↦ send_to_all links args fuel ids (wg + 1 - 1) (sent ++ (k, reply) ∷ [])
  ]

  -- The function that `RpcToPeer` returns: it comes back once every peer has replied.
  unfoldable pub rpc_to_peer :
      (Text → ℕ → Link Reply)
      → Heap
      → P2pManager
      → Text
      → Text
      → Bytes
      → ℕ
      → Option (List (Text × Reply))
  unfolding send_to_all
  rpc_to_peer links h pm svc_name svc_method payload fuel =
      send_to_all links (args_for h pm svc_name svc_method payload) fuel (peer_ids h pm) 0 []
