-- ===== src/Server/Agreement.antt =====
-- Where the servers do the same: server/rpc_peer.go, server/rpc_server.go and server/grpc_server.go.
pub mod Keys
use alice_tss.Base.{
  ℕ, ◌≡◌, refl, Option, none, some, List, [], Bytes, Text, codes, Result, ok, err, panic, ◌>>=◌,
}
use alice_tss.Types.{RvSignature}
use alice_tss.Libs.{Libs, SignOutcome}
use alice_tss.Json.{Json}
use alice_tss.Utils.Keys.{to_hex_hash}
use alice_tss.Peer.Manager.{Heap, P2pManager, get_protocol, clone_peer_manager, peer_ids}
use alice_tss.Store.Backend.{Codec}
use alice_tss.Store.Handler.{HandlerData}
use alice_tss.Service.Node.{Node}
use alice_tss.Service.Lifecycle.{Event}
use alice_tss.Server.Requests.{Link, args_for, unmarshal_request}
use alice_tss.Server.Requests.Laws.{AllReply, rpc_to_peer_lem}
use alice_tss.Server.Tss.{
  Alice, SignRequest, ReshareRequest, Called, spawned, finished, waits, no_call, then_node,
  sign_message, reshare,
}
use alice_tss.Server.Peers.{Formats, peer_sign_message, peer_reshare}
use alice_tss.Server.Rpc.{
  Reply, config, signature, generated, reshared, stored, checked, waiting, wrap,
  unmarshal_request_data, read_sign_request, rpc_sign_message,
}
use alice_tss.Server.Grpc.{grpc_sign_message}

module _ (l : Libs) (a : Alice) {S : Type 0} (h : HandlerData S) (f : Formats) where
  -- The handler for a resharing that another peer asks for does what `TssCaller.Reshare` does without a
  -- function to call the peers, for whatever data and node, errors included; a request that cannot be read
  -- is refused.
  pub peer_reshare-reshare :
      (payload : Bytes) (n : Node S)
      → peer_reshare l a h f payload n
        ≡ then_node
            (unmarshal_request f.reshare_json f.reshare_proto payload)
            n
            (λ request. reshare l a h request no_call n)
  unfolding peer_reshare reshare
  peer_reshare-reshare payload n = refl

  unwrap : {A : Type 0} (r : Result A) (x : A) → wrap r ≡ ok x → r ≡ ok x
  unwrap (ok y) x e = e
  unwrap (err y) x e = cc
  unwrap (panic y) x e = cc

  read_again :
      (c : Codec) (value : Json) (doc : c.Doc) (request : SignRequest)
      → unmarshal_request_data c read_sign_request value ≡ ok request
      → c.marshal value ≡ ok doc
      → (c.unmarshal doc >>= read_sign_request) ≡ ok request
  unfolding unmarshal_request_data
  read_again c value doc request asked written = unwrap _ request (rw written at asked)

  -- What the JSON handler for signing sends on to the peers, a peer whose JSON reads the text of a document
  -- as the node does takes for the same request: on the peer's node, whatever it is, its handler comes to
  -- what signing that request comes to.
  pub peer_sign_message-rpc_sign_message :
      (c : Codec) (text_of : c.Doc → Bytes) (value : Json) (doc : c.Doc) (request : SignRequest)
      (n : Node S)
      → unmarshal_request_data c read_sign_request value ≡ ok request
      → c.marshal value ≡ ok doc
      → f.sign_json (text_of doc) ≡ (c.unmarshal doc >>= read_sign_request)
      → peer_sign_message l a h f (text_of doc) n ≡ sign_message l a h request no_call [] n
  unfolding peer_sign_message unmarshal_request
  peer_sign_message-rpc_sign_message c text_of value doc request n asked written same =
      rw (same, read_again c value doc request asked written) refl

-- The same reply as gRPC gives it.
abbrev pub as_grpc : Result Reply → Result (Option RvSignature)
as_grpc (ok (signature g)) = ok (some g)
as_grpc (ok _) = ok none
as_grpc (err e) = err e
as_grpc (panic x) = panic x

same_reply :
    {M S : Type 0} (hash : Text) (r : Result (Called M SignOutcome)) (n : Node S)
    → alice_tss.Server.Grpc.replying (alice_tss.Server.Grpc.signed {M = M} hash) (r, n) ≡ (
      as_grpc (alice_tss.Server.Rpc.replying (alice_tss.Server.Rpc.signed {M = M} hash) (r, n)).0,
      (alice_tss.Server.Rpc.replying (alice_tss.Server.Rpc.signed {M = M} hash) (r, n)).1,
    )
same_reply hash (ok (spawned p)) n = refl
same_reply hash (ok (finished g)) n = refl
same_reply hash (ok waits) n = refl
same_reply hash (err e) n = refl
same_reply hash (panic x) n = refl

module _ (l : Libs) (a : Alice) (c : Codec) {S : Type 0} (h : HandlerData S) {R : Type 0}
    (links : Text → ℕ → Link R) (text_of : c.Doc → Bytes) (sign_bytes : SignRequest → Result Bytes)
    (reshare_bytes : ReshareRequest → Result Bytes) (peers : Heap) (pm : P2pManager)
    (fuel : ℕ) where
  -- What a call to all the peers of a message needs.
  abbrev pub Reached : SignRequest → Bytes → Type 0
  Reached request payload =
      AllReply links fuel
        (args_for peers (clone_peer_manager pm (get_protocol (to_hex_hash l request.message)))
          (codes "TssPeerService") (codes "SignMessage") payload)
        (peer_ids peers (clone_peer_manager pm (get_protocol (to_hex_hash l request.message))))

  -- A request to sign, by gRPC and by JSON: where both can be read and written, and every known peer replies to
  -- some attempt at what it is sent, within the fuel, both come to the same, on any node and with any
  -- course of the protocol: the same signature, wait, error or panic, and the same node.
  pub grpc_sign_message-rpc_sign_message :
      (value : Json) (request : SignRequest) (doc : c.Doc) (bytes : Bytes) (events : List Event)
      (n : Node S)
      → unmarshal_request_data c read_sign_request value ≡ ok request
      → c.marshal value ≡ ok doc
      → sign_bytes request ≡ ok bytes
      → Reached request (text_of doc)
      → Reached request bytes
      → let r = rpc_sign_message l a c h links text_of peers pm fuel value events n in
        grpc_sign_message l a h links sign_bytes reshare_bytes peers pm fuel request events n
        ≡ (as_grpc r.0, r.1)
  unfolding rpc_sign_message grpc_sign_message
  grpc_sign_message-rpc_sign_message value request doc bytes events n asked written packed by_json
        by_proto =
      let hash = to_hex_hash l request.message in
      let pm' = clone_peer_manager pm (get_protocol hash) in
      rw
        (
          asked,
          written,
          packed,
          rpc_to_peer_lem links fuel peers pm' (codes "TssPeerService") (codes "SignMessage")
              (text_of doc) by_json,
          rpc_to_peer_lem links fuel peers pm' (codes "TssPeerService") (codes "SignMessage") bytes
              by_proto,
        )
        (same_reply hash _ _)
