-- ===== src/Server/Order.antt =====
-- No handler depends on the order in which Go goes through the map of peers: server/rpc_server.go and
-- server/grpc_server.go.
use alice_tss.Base.{ℕ, ◌≡◌, refl, Option, none, some, List, Bytes, Text, codes, Result}
use alice_tss.Libs.{Libs}
use alice_tss.Json.{Json}
use alice_tss.Peer.Manager.{Heap, P2pManager, get_protocol, clone_peer_manager}
use alice_tss.Store.Backend.{Codec}
use alice_tss.Store.Handler.{HandlerData}
use alice_tss.Service.Node.{Node}
use alice_tss.Service.Lifecycle.{Event}
use alice_tss.Server.Requests.{Link, rpc_to_peer}
use alice_tss.Server.Requests.Order.{is_some, SamePeers, num_peers-perm, rpc_to_peer-perm}
use alice_tss.Server.Tss.{Alice, SignRequest, ReshareRequest, PeerCall, register_dkg}
use alice_tss.Server.Rpc.{call_of, rpc_sign_message, rpc_register_dkg, rpc_reshare}
use alice_tss.Server.Grpc.{grpc_sign_message, grpc_register_dkg, grpc_reshare}

call_of-perm : {A : Type 0} (o o' : Option A) → is_some o ≡ is_some o' → call_of o ≡ call_of o'
call_of-perm none none e = refl
call_of-perm none (some y) e = cc
call_of-perm (some x) none e = cc
call_of-perm (some x) (some y) e = refl

module _ (l : Libs) (a : Alice) (c : Codec) {S : Type 0} (h : HandlerData S) {R : Type 0}
    (links : Text → ℕ → Link R) (text_of : c.Doc → Bytes) (sign_bytes : SignRequest → Result Bytes)
    (reshare_bytes : ReshareRequest → Result Bytes) (peers peers' : Heap) (pm : P2pManager)
    (fuel : ℕ) (s : SamePeers peers peers' pm) where
  cloned-SamePeers :
      (hash : Text) → SamePeers peers peers' (clone_peer_manager pm (get_protocol hash))
  unfolding clone_peer_manager
  cloned-SamePeers hash = record { is_map = s.is_map; same = s.same }

  called :
      (hash method : Text) (payload : Bytes)
      → call_of (
          rpc_to_peer links peers
            (clone_peer_manager pm (get_protocol hash))
            (codes "TssPeerService")
            method
            payload
            fuel)
        ≡ call_of (
            rpc_to_peer links peers'
              (clone_peer_manager pm (get_protocol hash))
              (codes "TssPeerService")
              method
              payload
              fuel)
  called hash method payload = call_of-perm _ _ (
      rpc_to_peer-perm peers peers' (clone_peer_manager pm (get_protocol hash))
        (cloned-SamePeers hash) links fuel (codes "TssPeerService") method payload)

  generated_over :
      (hash : Text) (call2peer : PeerCall) (events : List Event) (n : Node S)
      → register_dkg l a h peers (clone_peer_manager pm (get_protocol hash)) hash call2peer events n
        ≡ register_dkg l a h peers'
            (clone_peer_manager pm (get_protocol hash))
            hash
            call2peer
            events
            n
  unfolding register_dkg
  generated_over hash call2peer events n =
      rw
        (num_peers-perm peers peers' (clone_peer_manager pm (get_protocol hash))
          (cloned-SamePeers hash))
        refl

  -- On two nodes with the same peers, each with its address, in whatever order their maps have them, the three
  -- handlers over HTTP and the three over gRPC that call the peers come to the same, for whatever request,
  -- course of the protocol and node: the same answer, wait, error or panic, and the same node.
  pub handlers_any_order :
      (value : Json) (hash : Text) (request : SignRequest) (reshare_request : ReshareRequest)
      (events : List Event) (n : Node S)
      → (rpc_sign_message l a c h links text_of peers pm fuel value events n
          ≡ rpc_sign_message l a c h links text_of peers' pm fuel value events n)
        × (rpc_register_dkg l a c h links text_of peers pm fuel hash events n
            ≡ rpc_register_dkg l a c h links text_of peers' pm fuel hash events n)
        × (rpc_reshare l a c h links text_of peers pm fuel value n
            ≡ rpc_reshare l a c h links text_of peers' pm fuel value n)
        × (grpc_sign_message l a h links sign_bytes reshare_bytes peers pm fuel request events n
            ≡ grpc_sign_message l a h links sign_bytes reshare_bytes peers' pm fuel request events
                n)
        × (grpc_register_dkg l a h links sign_bytes reshare_bytes peers pm fuel hash events n
            ≡ grpc_register_dkg l a h links sign_bytes reshare_bytes peers' pm fuel hash events n)
        × (grpc_reshare l a h links sign_bytes reshare_bytes peers pm fuel reshare_request n
            ≡ grpc_reshare l a h links sign_bytes reshare_bytes peers' pm fuel reshare_request n)
  unfolding rpc_sign_message rpc_register_dkg rpc_reshare grpc_sign_message grpc_register_dkg
      grpc_reshare
  handlers_any_order value hash request reshare_request events n = (
    simp called,
    simp (called, generated_over hash),
    simp called,
    simp called,
    simp (called, generated_over hash),
    simp called,
  )
