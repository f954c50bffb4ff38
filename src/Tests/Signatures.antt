-- ===== src/Tests/Signatures.antt =====
-- Signing over the three nodes of one process, and the key generations before it, at concrete hosts.
use alice_tss.Base.{ℕ, ◌≡◌, refl, sym, subst, none, some, traverse_map, [], ◌∷◌, Text, codes, ok}
use alice_tss.Libs.{SignOutcome}
use alice_tss.Codec.BigInt.{decimal, set_string}
use alice_tss.Utils.Keys.{to_hex_hash, to_hex}
use alice_tss.Peer.Manager.{new_peer_manager}
use alice_tss.Utils.Convert.{convert_dkg_result, big_of, convert_bk}
use alice_tss.Store.Mock.{MockDb, mock_get_signer_config}
use alice_tss.Store.Handler.{mock_handler}
use alice_tss.Service.Signer.{signature_of, new_signer_service, create_signer}
use alice_tss.Server.Tss.{Called, sign_message}
use alice_tss.Server.Rpc.{signature}
use alice_tss.Server.SelfService.{create_pm, create_managers, wait_for_peers}
use alice_tss.Server.SelfService.Gather.Invariant.{Gathers}
use alice_tss.Server.SelfService.Calls.{Cluster, Calls, call_sign, node_request}
use alice_tss.Server.SelfService.Calls.Dkg.{outcomes}
use alice_tss.Server.SelfService.Calls.Laws.{Connected}
use alice_tss.Server.SelfService.Calls.Sign.{Signs}
use alice_tss.Server.Rpc.Self.{rpc_self_sign_message}
use alice_tss.Server.Rpc.Self.Laws.{rpc_self_sign_message_answers}
use alice_tss.Tests.Toys.{toy_libs, toy_codec}
use alice_tss.Tests.Lives.{sign_outcome, mock_SignCalm, one_end}
use alice_tss.Tests.Servers.{toy_alice, request, small_config, request_made}
use alice_tss.Tests.Clients.{request_json, request_read}
use alice_tss.Tests.Cluster.{
  no_discovery_error, one_tick, three_nodes, found, manager_of, waited, reach_waited,
}

abbrev message_hash : Text
message_hash = to_hex_hash toy_libs (codes "00ff")

abbrev signing_cluster : Cluster MockDb
signing_cluster = record {
  first = [];
  second = [];
  third = [];
  store = record {
    dkg_results = [];
    signer_configs =
        (codes "h-0", small_config)
        ∷ (codes "h-1", small_config)
        ∷ (codes "h-2", small_config)
        ∷ [];
  };
}

connected :
    Connected toy_libs toy_alice
      (mock_handler toy_libs)
      no_discovery_error
      one_tick
      three_nodes
      []
      found
      message_hash
      (manager_of message_hash (codes "A") 0)
      (manager_of message_hash (codes "B") 1)
      (manager_of message_hash (codes "C") 2)
unfolding create_pm create_managers new_peer_manager wait_for_peers to_hex_hash to_hex
connected = refl

signs0 :
    Signs toy_libs toy_alice
      (mock_handler toy_libs)
      signing_cluster.store
      (node_request request 0)
      0
unfolding mock_get_signer_config decimal
signs0 = (small_config, refl, request_made)

signs1 :
    Signs toy_libs toy_alice
      (mock_handler toy_libs)
      signing_cluster.store
      (node_request request 1)
      0
unfolding mock_get_signer_config decimal
signs1 = (small_config, refl, request_made)

signs2 :
    Signs toy_libs toy_alice
      (mock_handler toy_libs)
      signing_cluster.store
      (node_request request 2)
      0
unfolding mock_get_signer_config decimal
signs2 = (small_config, refl, request_made)

abbrev calls : Calls (Called ℕ SignOutcome) MockDb
calls =
    call_sign toy_libs toy_alice (mock_handler toy_libs) request waited.primary one_end
      signing_cluster (manager_of message_hash (codes "A") 0)
      (manager_of message_hash (codes "B") 1) (manager_of message_hash (codes "C") 2)

calls_fine : outcomes calls ≡ none ∷ none ∷ []
unfolding sign_message mock_get_signer_config decimal new_signer_service create_signer
    convert_dkg_result big_of convert_bk set_string traverse_map
calls_fine = refl

rpc_self_sign_message_answers_example :
    (rpc_self_sign_message toy_libs toy_alice
      (mock_handler toy_libs)
      no_discovery_error
      one_tick
      []
      found
      toy_codec
      (some three_nodes)
      request_json
      waited.primary
      one_end
      signing_cluster).0
    ≡ ok (signature (signature_of message_hash sign_outcome))
rpc_self_sign_message_answers_example =
    rpc_self_sign_message_answers toy_libs toy_alice (mock_handler toy_libs) no_discovery_error
      one_tick three_nodes [] found toy_codec mock_SignCalm request_json request
      (manager_of message_hash (codes "A") 0) (manager_of message_hash (codes "B") 1)
      (manager_of message_hash (codes "C") 2) 0 0 0 one_end signing_cluster sign_outcome
      request_read (λ e. cc) connected signs0 signs1 signs2 refl
      (subst (λ os. Gathers os none waited) (sym calls_fine) reach_waited) refl refl
