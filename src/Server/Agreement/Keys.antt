-- ===== src/Server/Agreement/Keys.antt =====
-- The requests for a key by gRPC and by JSON: server/grpc_server.go and server/rpc_server.go.
use alice_tss.Base.{
  ℕ, ◌≡◌, refl, none, some, List, [], Bytes, Text, codes, Result, ok, err, panic, Option,
}
use alice_tss.Libs.{Libs, DkgOutcome}
use alice_tss.Json.{Json}
use alice_tss.Peer.Manager.{Heap, P2pManager, get_protocol, clone_peer_manager, peer_ids}
use alice_tss.Store.Backend.{Codec}
use alice_tss.Store.Handler.{HandlerData}
use alice_tss.Service.Node.{Node}
use alice_tss.Service.Lifecycle.{Event}
use alice_tss.Server.Requests.{Link, args_for}
use alice_tss.Server.Requests.Laws.{AllReply, rpc_to_peer_lem}
use alice_tss.Server.Tss.{Alice, SignRequest, ReshareRequest, Called, spawned, finished, waits}
use alice_tss.Server.Rpc.{
  Reply, DkgReply, config, signature, generated, reshared, stored, checked, waiting,
  rpc_register_dkg, rpc_reshare, unmarshal_request_data, read_reshare_request,
}
use alice_tss.Server.Grpc.{grpc_register_dkg, grpc_reshare}

-- The same replies as gRPC gives them: the key without its hash, and nothing for a resharing.
abbrev pub key_as_grpc : Result Reply → Result (Option DkgReply)
key_as_grpc (ok (generated d)) = ok (some (record d { hash = [] }))
key_as_grpc (ok _) = ok none
key_as_grpc (err e) = err e
key_as_grpc (panic x) = panic x

abbrev pub reshared_as_grpc : Result Reply → Result (Option (Unit {0}))
reshared_as_grpc (ok (reshared hash)) = ok (some tt)
reshared_as_grpc (ok _) = ok none
reshared_as_grpc (err e) = err e
reshared_as_grpc (panic x) = panic x

same_key :
    {M S : Type 0} (l : Libs) (hash : Text) (r : Result (Called M DkgOutcome)) (n : Node S)
    → alice_tss.Server.Grpc.replying (alice_tss.Server.Grpc.registered {M = M} l) (r, n) ≡ (
      key_as_grpc
          (alice_tss.Server.Rpc.replying (alice_tss.Server.Rpc.registered {M = M} l hash) (r, n)).0,
      (alice_tss.Server.Rpc.replying (alice_tss.Server.Rpc.registered {M = M} l hash) (r, n)).1,
    )
same_key l hash (ok (spawned p)) n = refl
same_key l hash (ok (finished d)) n = refl
same_key l hash (ok waits) n = refl
same_key l hash (err e) n = refl
same_key l hash (panic x) n = refl

same_resharing :
    {M S : Type 0} (hash : Text) (r : Result (Called M (Unit {0}))) (n : Node S)
    → alice_tss.Server.Grpc.replying (alice_tss.Server.Grpc.taken {M = M}) (r, n) ≡ (
      reshared_as_grpc
          (alice_tss.Server.Rpc.replying (alice_tss.Server.Rpc.taken {M = M} hash) (r, n)).0,
      (alice_tss.Server.Rpc.replying (alice_tss.Server.Rpc.taken {M = M} hash) (r, n)).1,
    )
same_resharing hash (ok (spawned p)) n = refl
same_resharing hash (ok (finished d)) n = refl
same_resharing hash (ok waits) n = refl
same_resharing hash (err e) n = refl
same_resharing hash (panic x) n = refl

module _ (l : Libs) (a : Alice) (c : Codec) {S : Type 0} (h : HandlerData S) {R : Type 0}
    (links : Text → ℕ → Link R) (text_of : c.Doc → Bytes) (sign_bytes : SignRequest → Result Bytes)
    (reshare_bytes : ReshareRequest → Result Bytes) (peers : Heap) (pm : P2pManager)
    (fuel : ℕ) where
  -- A key generation, by gRPC and by JSON, under the same random hash, on any node, with any peers and any course
  -- of the protocol: both come to the same, the same key, wait, error or panic, and the same node, but that
  -- the reply over gRPC has the empty hash in place of the one under which the key is stored.
  pub grpc_register_dkg-rpc_register_dkg :
      (hash : Text) (events : List Event) (n : Node S)
      → let r = rpc_register_dkg l a c h links text_of peers pm fuel hash events n in
        grpc_register_dkg l a h links sign_bytes reshare_bytes peers pm fuel hash events n
        ≡ (key_as_grpc r.0, r.1)
  unfolding rpc_register_dkg grpc_register_dkg
  grpc_register_dkg-rpc_register_dkg hash events n = same_key l hash _ _

  -- What the call to all the peers of a key needs.
  abbrev pub Reached : Text → Bytes → Type 0
  Reached hash payload =
      AllReply links fuel
        (args_for peers (clone_peer_manager pm (get_protocol hash)) (codes "TssPeerService")
          (codes "Reshare") payload)
        (peer_ids peers (clone_peer_manager pm (get_protocol hash)))

  -- A request to reshare, by gRPC and by JSON: where both can be read and written, and every known peer replies to
  -- some attempt at what it is sent, within the fuel, both come to the same, on any node: the same success,
  -- error or panic, and the same node; the reply over gRPC is empty where that over HTTP has the hash.
  pub grpc_reshare-rpc_reshare :
      (value : Json) (request : ReshareRequest) (doc : c.Doc) (bytes : Bytes) (n : Node S)
      → unmarshal_request_data c read_reshare_request value ≡ ok request
      → c.marshal value ≡ ok doc
      → reshare_bytes request ≡ ok bytes
      → Reached request.hash (text_of doc)
      → Reached request.hash bytes
      → let r = rpc_reshare l a c h links text_of peers pm fuel value n in
        grpc_reshare l a h links sign_bytes reshare_bytes peers pm fuel request n
        ≡ (reshared_as_grpc r.0, r.1)
  unfolding rpc_reshare grpc_reshare
  grpc_reshare-rpc_reshare value request doc bytes n asked written packed by_json by_proto =
      let pm' = clone_peer_manager pm (get_protocol request.hash) in
      rw
        (
          asked,
          written,
          packed,
          rpc_to_peer_lem links fuel peers pm' (codes "TssPeerService") (codes "Reshare")
              (text_of doc) by_json,
          rpc_to_peer_lem links fuel peers pm' (codes "TssPeerService") (codes "Reshare") bytes
              by_proto,
        )
        (same_resharing request.hash _ _)
