-- ===== src/Server/Grpc.antt =====
-- server/grpc_server.go: the operations over gRPC. The reply is `none` while the call has not come back.
use alice_tss.Base.{
  ℕ, ◌≡◌, refl, Option, none, some, List, [], Bytes, Text, codes, Result, ok, err, panic, lib,
}
use alice_tss.Types.{RvSignature}
use alice_tss.Libs.{Libs, DkgOutcome, SignOutcome}
use alice_tss.Utils.Keys.{to_hex_hash}
use alice_tss.Peer.Manager.{Heap, P2pManager, get_protocol, clone_peer_manager, num_peers, peer_ids}
use alice_tss.Store.Badger.{pubkey_text, hex_of}
use alice_tss.Store.Handler.{HandlerData}
use alice_tss.Service.Node.{Node}
use alice_tss.Service.Signer.{signature_of}
use alice_tss.Service.Lifecycle.{Event, ends}
use alice_tss.Service.Lifecycle.Services.{SaveCalm}
use alice_tss.Server.Requests.{Link, args_for, rpc_to_peer}
use alice_tss.Server.Requests.Laws.{AllReply, rpc_to_peer_lem}
use alice_tss.Server.Tss.{
  Alice, SignRequest, ReshareRequest, Called, spawned, finished, got, then_node, sign_message,
  reshare, register_dkg,
}
use alice_tss.Server.Tss.Laws.{final_keygen, final_dkg_node, register_dkg_finishes}
use alice_tss.Server.Rpc.{DkgReply, call_of}

abbrev pub signed : {M : Type 0} → Text → Called M SignOutcome → Option RvSignature
signed hash (finished r) = some (signature_of hash r)
signed hash _ = none

-- The reply has no hash.
abbrev pub grpc_dkg_reply : Libs → DkgOutcome → DkgReply
grpc_dkg_reply l d = record {
  x = hex_of d.public_key.x;
  y = hex_of d.public_key.y;
  pubkey = pubkey_text l d;
  address = l.address_string (l.pubkey_to_address d.public_key.x d.public_key.y);
  hash = [];
}

abbrev pub registered : {M : Type 0} → Libs → Called M DkgOutcome → Option DkgReply
registered l (finished d) = some (grpc_dkg_reply l d)
registered l _ = none

-- `pb.ServiceReply{}`
abbrev pub taken : {M : Type 0} → Called M (Unit {0}) → Option (Unit {0})
taken (spawned _) = some tt
taken _ = none

abbrev pub replying :
    {A B S : Type 0} → (A → Option B) → Result A × Node S → Result (Option B) × Node S
replying f (ok a, n) = (ok (f a), n)
replying f (err e, n) = (err e, n)
replying f (panic p, n) = (panic p, n)

module _ (l : Libs) (a : Alice) {S : Type 0} (h : HandlerData S) {R : Type 0}
    (links : Text → ℕ → Link R) (sign_bytes : SignRequest → Result Bytes)
    (reshare_bytes : ReshareRequest → Result Bytes) (peers : Heap) (pm : P2pManager)
    (fuel : ℕ) where
  abbrev cloned : Text → P2pManager
  cloned hash = clone_peer_manager pm (get_protocol hash)

  -- `grpcServer.SignMessage`; `proto.Marshal` is an argument.
  unfoldable pub grpc_sign_message :
      SignRequest → List Event → Node S → Result (Option RvSignature) × Node S
  grpc_sign_message request events n =
      let hash = to_hex_hash l request.message in
      then_node (sign_bytes request) n (λ bs. replying (signed hash) (
        sign_message l a h request
          (call_of (
            rpc_to_peer links peers (cloned hash) (codes "TssPeerService") (codes "SignMessage") bs
              fuel))
          events n))

  -- `grpcServer.RegisterDKG`, over the random hash.
  unfoldable pub grpc_register_dkg : Text → List Event → Node S → Result (Option DkgReply) × Node S
  grpc_register_dkg hash events n = replying (registered l) (
      register_dkg l a h peers (cloned hash) hash
        (call_of (
          rpc_to_peer links peers (cloned hash) (codes "TssPeerService") (codes "RegisterDKG") hash
            fuel))
        events n)

  -- `grpcServer.Reshare`
  unfoldable pub grpc_reshare : ReshareRequest → Node S → Result (Option (Unit {0})) × Node S
  grpc_reshare request n = then_node (reshare_bytes request) n (λ bs. replying taken (
      reshare l a h request
        (call_of (
          rpc_to_peer links peers (cloned request.hash) (codes "TssPeerService") (codes "Reshare")
            bs fuel))
        n))

  -- The reply for an outcome; its hash is empty. An error where there is no outcome.
  abbrev pub dkg_answer : Option DkgOutcome → Result (Option DkgReply)
  dkg_answer none = err (lib 30)
  dkg_answer (some d) = ok (some (grpc_dkg_reply l d))

  replying-got :
      (o : Option DkgOutcome) (n : Node S)
      → replying (registered {M = a.keygen.M} l) (got o, n) ≡ (dkg_answer o, n)
  replying-got none n = refl
  replying-got (some d) n = refl

  -- Where every known peer replies to some attempt within the fuel, alice accepts rank 0 and the number of
  -- known peers as the threshold, no save of an outcome panics and the protocol reports exactly one end: a
  -- client gets the public key and the address of the outcome, or an error where there is none, but not the
  -- hash under which the key is stored, which is empty in the reply.
  pub grpc_register_dkg_answers :
      (calm : SaveCalm h) (hash : Text) (m : a.keygen.M) (events : List Event) (n : Node S)
      → AllReply links fuel
          (args_for peers (cloned hash) (codes "TssPeerService") (codes "RegisterDKG") hash)
          (peer_ids peers (cloned hash))
      → a.new_dkg (record { rank = 0; threshold = num_peers peers (cloned hash) }) ≡ ok m
      → ends events ≡ 1
      → grpc_register_dkg hash events n ≡ (
        dkg_answer (a.keygen.get_result (final_keygen l a h m events)),
        final_dkg_node l a h hash m events n,
      )
  unfolding grpc_register_dkg
  grpc_register_dkg_answers calm hash m events n replies made one =
      let (eq, _) = register_dkg_finishes l a h calm peers (cloned hash) hash m events n made one in
      rw
        (
          rpc_to_peer_lem links fuel peers (cloned hash) (codes "TssPeerService")
              (codes "RegisterDKG") hash replies,
          eq,
        )
        (replying-got (a.keygen.get_result (final_keygen l a h m events))
          (final_dkg_node l a h hash m events n))
