-- ===== src/Server/Rpc.antt =====
-- server/rpc_server.go: the operations that a node offers to its clients over HTTP. The handlers that go to the
-- self service are in Server/Rpc/Self.antt.
pub mod Laws
pub mod Sign
pub mod Self
pub mod Keys
use alice_tss.Base.{
  ℕ, Option, none, some, List, [], Bytes, Text, codes, Dict, Result, Done, ok, err, panic, ◌>>=◌,
  wrapped, unmarshal_type,
}
use alice_tss.Types.{SignerConfig, RvSignature, DkgResult}
use alice_tss.Libs.{Libs, DkgOutcome, SignOutcome}
use alice_tss.Json.{Json, null, obj, find, read_text}
use alice_tss.Wire.{dkg_json, read_signature}
use alice_tss.Codec.BigInt.{int_bytes}
use alice_tss.Codec.Hex.{hex_encode}
use alice_tss.Utils.Keys.{to_hex_hash}
use alice_tss.Utils.Signature.{CheckedSignature, check_signature_ecdsa}
use alice_tss.Peer.Manager.{Heap, P2pManager, get_protocol, clone_peer_manager}
use alice_tss.Store.Backend.{Codec}
use alice_tss.Store.Badger.{pubkey_text, hex_of}
use alice_tss.Store.Handler.{HandlerData}
use alice_tss.Service.Node.{Service, Node}
use alice_tss.Service.Signer.{signature_of}
use alice_tss.Service.Lifecycle.{Event}
use alice_tss.Server.Requests.{Link, rpc_to_peer}
use alice_tss.Server.Tss.{
  Alice, SignRequest, ReshareRequest, Called, spawned, finished, waits, PeerCall, not_back, back,
  then_node, sign_message, get_signer_config_of, reshare, register_dkg,
}

-- `pb.CheckSignatureByPubkeyRequest`
pub record CheckRequest : Type 0 where
  pub message : Text
  pub pubkey : Text

-- `pb.DkgReply`
pub record DkgReply : Type 0 where
  pub x : Text
  pub y : Text
  pub pubkey : Text
  pub address : Text
  pub hash : Text

-- What `reply.Data` holds, or that the handler has not come back.
pub data Reply : Type 0 where
  config : SignerConfig → Reply
  signature : RvSignature → Reply
  generated : DkgReply → Reply
  reshared : Text → Reply
  stored : Option DkgResult → Reply
  checked : CheckedSignature → Reply
  waiting : Reply

-- `json.Unmarshal` into the requests.
unfoldable pub read_sign_request : Json → Result SignRequest
read_sign_request null = ok (record { hash = []; pubkey = []; message = [] })
read_sign_request (obj fs) = do
  hash ← read_text (find (codes "hash") fs)
  pubkey ← read_text (find (codes "pubkey") fs)
  message ← read_text (find (codes "message") fs)
  ok (record { hash = hash; pubkey = pubkey; message = message })
read_sign_request _ = err unmarshal_type

unfoldable pub read_reshare_request : Json → Result ReshareRequest
read_reshare_request null = ok (record { hash = []; pubkey = [] })
read_reshare_request (obj fs) = do
  hash ← read_text (find (codes "hash") fs)
  pubkey ← read_text (find (codes "pubkey") fs)
  ok (record { hash = hash; pubkey = pubkey })
read_reshare_request _ = err unmarshal_type

unfoldable pub read_check_request : Json → Result CheckRequest
read_check_request null = ok (record { message = []; pubkey = [] })
read_check_request (obj fs) = do
  message ← read_text (find (codes "message") fs)
  pubkey ← read_text (find (codes "pubkey") fs)
  ok (record { message = message; pubkey = pubkey })
read_check_request _ = err unmarshal_type

-- `fmt.Errorf("…: %w", err)`
abbrev pub wrap : {A : Type 0} → Result A → Result A
wrap (ok a) = ok a
wrap (err e) = err (wrapped e)
wrap (panic p) = panic p

-- A nil pointer is written as null.
abbrev pub pointer_json : Libs → Option DkgResult → Json
pointer_json l none = null
pointer_json l (some d) = dkg_json l d

module _ (c : Codec) where
  -- `unmarshalRequestData`
  unfoldable pub unmarshal_request_data : {T : Type 0} → (Json → Result T) → Json → Result T
  unmarshal_request_data read value = do
    arg_data ← wrap (c.marshal value)
    wrap (c.unmarshal arg_data >>= read)

-- What the handlers answer for a call.
abbrev pub signed : {M : Type 0} → Text → Called M SignOutcome → Reply
signed hash (finished r) = signature (signature_of hash r)
signed hash _ = waiting

abbrev pub dkg_reply : Libs → Text → DkgOutcome → DkgReply
dkg_reply l hash d = record {
  x = hex_of d.public_key.x;
  y = hex_of d.public_key.y;
  pubkey = pubkey_text l d;
  address = l.address_string (l.pubkey_to_address d.public_key.x d.public_key.y);
  hash = hash;
}

abbrev pub registered : {M : Type 0} → Libs → Text → Called M DkgOutcome → Reply
registered l hash (finished d) = generated (dkg_reply l hash d)
registered l hash _ = waiting

abbrev pub taken : {M : Type 0} → Text → Called M (Unit {0}) → Reply
taken hash (spawned _) = reshared hash
taken hash _ = waiting

abbrev pub replying : {A S : Type 0} → (A → Reply) → Result A × Node S → Result Reply × Node S
replying f (ok a, n) = (ok (f a), n)
replying f (err e, n) = (err e, n)
replying f (panic p, n) = (panic p, n)

-- `RpcToPeer` returns no error once it comes back.
abbrev pub call_of : {A : Type 0} → Option A → PeerCall
call_of none = not_back
call_of (some _) = back (ok tt)

module _ (l : Libs) (a : Alice) (c : Codec) {S : Type 0} (h : HandlerData S) {R : Type 0}
    (links : Text → ℕ → Link R) (text_of : c.Doc → Bytes) (peers : Heap) (pm : P2pManager)
    (fuel : ℕ) where
  -- What the call of `call2peer` comes back with: the replies of the peers.
  abbrev pub sent : Text → Text → Bytes → Option (List (Text × R))
  sent protocol method payload =
      rpc_to_peer links peers (clone_peer_manager pm (get_protocol protocol))
        (codes "TssPeerService") method payload fuel

  abbrev to_peers : Text → Text → Bytes → PeerCall
  to_peers protocol method payload = call_of (sent protocol method payload)

  -- `RpcService.GetSignerConfig`
  unfoldable pub rpc_get_signer_config : Json → Node S → Result Reply
  rpc_get_signer_config value n = do
    request ← unmarshal_request_data c read_sign_request value
    cfg ← get_signer_config_of l a h request n
    ok (config cfg)

  -- `RpcService.SignMessage`
  unfoldable pub rpc_sign_message : Json → List Event → Node S → Result Reply × Node S
  rpc_sign_message value events n =
      then_node (unmarshal_request_data c read_sign_request value) n (λ request.
        then_node (c.marshal value) n (λ arg_data.
          let hash = to_hex_hash l request.message in
          replying (signed hash) (
            sign_message l a h request (to_peers hash (codes "SignMessage") (text_of arg_data))
              events n)))

  -- `RpcService.RegisterDKG`, over the random hash.
  unfoldable pub rpc_register_dkg : Text → List Event → Node S → Result Reply × Node S
  rpc_register_dkg hash events n = replying (registered l hash) (
      register_dkg l a h peers (clone_peer_manager pm (get_protocol hash)) hash
        (to_peers hash (codes "RegisterDKG") hash) events n)

  -- `RpcService.Reshare`
  unfoldable pub rpc_reshare : Json → Node S → Result Reply × Node S
  rpc_reshare value n =
      then_node (unmarshal_request_data c read_reshare_request value) n (λ request.
        then_node (c.marshal value) n (λ arg_data.
          replying (taken request.hash)
            (reshare l a h request (to_peers request.hash (codes "Reshare") (text_of arg_data)) n)))

module _ (l : Libs) (c : Codec) {S : Type 0} (h : HandlerData S) where
  -- `RpcService.GetDKG`
  unfoldable pub rpc_get_dkg : Text → Node S → Result Reply
  rpc_get_dkg key n = do d ← h.get_dkg_result_data n.store key; ok (stored d)

  -- `RpcService.CheckSignature`: what is stored under the hash is read as the result of a key generation,
  -- and its text then as a signature.
  unfoldable pub rpc_check_signature : Json → Node S → Result Reply
  rpc_check_signature value n = do
    request ← unmarshal_request_data c read_check_request value
    d ← h.get_dkg_result_data n.store (to_hex_hash l request.message)
    rvs_data ← c.marshal (pointer_json l d)
    rvs ← c.unmarshal rvs_data
    rv_signature ← read_signature rvs
    result ← check_signature_ecdsa l request.message rv_signature request.pubkey
    ok (checked result)
