-- ===== src/Tests/Orders.antt =====
-- The handlers on the same peers in two orders.
use mathlib.Core.List.Perm
use alice_tss.Base.{◌≡◌, refl, [], ◌∷◌, codes, ok}
use alice_tss.Peer.Manager.{Heap}
use alice_tss.Store.Handler.{mock_handler}
use alice_tss.Server.Requests.Order.{SamePeers}
use alice_tss.Server.Rpc.{rpc_sign_message, rpc_register_dkg, rpc_reshare}
use alice_tss.Server.Grpc.{grpc_sign_message, grpc_register_dkg, grpc_reshare}
use alice_tss.Server.Order.{handlers_any_order}
use alice_tss.Tests.Toys.{toy_libs, toy_codec}
use alice_tss.Tests.Lives.{one_end}
use alice_tss.Tests.Servers.{toy_alice, request, node, known_peers, manager, toy_links}
use alice_tss.Tests.Clients.{request_json}

abbrev turned_peers : Heap
turned_peers = ((codes "B", codes "/ip4/2") ∷ (codes "A", codes "/ip4/1") ∷ []) ∷ []

known_in_any_order : SamePeers known_peers turned_peers manager
known_in_any_order = record {
  is_map = ((refl, tt), (tt, tt));
  same = Perm.swap (codes "B", codes "/ip4/2") (codes "A", codes "/ip4/1") [];
}

handlers_any_order_example :
    (rpc_sign_message toy_libs toy_alice toy_codec
        (mock_handler toy_libs)
        toy_links
        (λ d. codes "data")
        known_peers
        manager
        5
        request_json
        one_end
        node
      ≡ rpc_sign_message toy_libs toy_alice toy_codec
          (mock_handler toy_libs)
          toy_links
          (λ d. codes "data")
          turned_peers
          manager
          5
          request_json
          one_end
          node)
    × (rpc_register_dkg toy_libs toy_alice toy_codec
          (mock_handler toy_libs)
          toy_links
          (λ d. codes "data")
          known_peers
          manager
          5
          (codes "h")
          one_end
          node
        ≡ rpc_register_dkg toy_libs toy_alice toy_codec
            (mock_handler toy_libs)
            toy_links
            (λ d. codes "data")
            turned_peers
            manager
            5
            (codes "h")
            one_end
            node)
    × (rpc_reshare toy_libs toy_alice toy_codec
          (mock_handler toy_libs)
          toy_links
          (λ d. codes "data")
          known_peers
          manager
          5
          request_json
          node
        ≡ rpc_reshare toy_libs toy_alice toy_codec
            (mock_handler toy_libs)
            toy_links
            (λ d. codes "data")
            turned_peers
            manager
            5
            request_json
            node)
    × (grpc_sign_message toy_libs toy_alice
          (mock_handler toy_libs)
          toy_links
          (λ r. ok (codes "data"))
          (λ r. ok (codes "data"))
          known_peers
          manager
          5
          request
          one_end
          node
        ≡ grpc_sign_message toy_libs toy_alice
            (mock_handler toy_libs)
            toy_links
            (λ r. ok (codes "data"))
            (λ r. ok (codes "data"))
            turned_peers
            manager
            5
            request
            one_end
            node)
    × (grpc_register_dkg toy_libs toy_alice
          (mock_handler toy_libs)
          toy_links
          (λ r. ok (codes "data"))
          (λ r. ok (codes "data"))
          known_peers
          manager
          5
          (codes "h")
          one_end
          node
        ≡ grpc_register_dkg toy_libs toy_alice
            (mock_handler toy_libs)
            toy_links
            (λ r. ok (codes "data"))
            (λ r. ok (codes "data"))
            turned_peers
            manager
            5
            (codes "h")
            one_end
            node)
    × (grpc_reshare toy_libs toy_alice
          (mock_handler toy_libs)
          toy_links
          (λ r. ok (codes "data"))
          (λ r. ok (codes "data"))
          known_peers
          manager
          5
          (record { hash = codes "h"; pubkey = codes "k" })
          node
        ≡ grpc_reshare toy_libs toy_alice
            (mock_handler toy_libs)
            toy_links
            (λ r. ok (codes "data"))
            (λ r. ok (codes "data"))
            turned_peers
            manager
            5
            (record { hash = codes "h"; pubkey = codes "k" })
            node)
handlers_any_order_example =
    handlers_any_order toy_libs toy_alice toy_codec (mock_handler toy_libs) toy_links
      (λ d. codes "data") (λ r. ok (codes "data")) (λ r. ok (codes "data")) known_peers turned_peers
      manager 5 known_in_any_order request_json (codes "h") request
      (record { hash = codes "h"; pubkey = codes "k" }) one_end node
