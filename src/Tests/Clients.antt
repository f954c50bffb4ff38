-- ===== src/Tests/Clients.antt =====
-- The theorems on the client API, each at a concrete request.
use alice_tss.Base.{◌≡◌, refl, [], Text, codes, ok, err, lib}
use alice_tss.Json.{Json, str, obj, field, end}
use alice_tss.Peer.Manager.{P2pManager, get_protocol, clone_peer_manager, peer_ids}
use alice_tss.Utils.Keys.{to_hex_hash}
use alice_tss.Store.Handler.{mock_handler}
use alice_tss.Server.Requests.{args_for}
use alice_tss.Server.Requests.Laws.{AllReply}
use alice_tss.Server.Rpc.{
  unmarshal_request_data, read_sign_request, rpc_sign_message, rpc_register_dkg,
}
use alice_tss.Server.Grpc.{grpc_sign_message, grpc_register_dkg}
use alice_tss.Server.Agreement.Keys.{key_as_grpc, grpc_register_dkg-rpc_register_dkg}
use alice_tss.Server.Agreement.{as_grpc, grpc_sign_message-rpc_sign_message}
use alice_tss.Tests.Toys.{toy_libs, toy_codec}
use alice_tss.Tests.Lives.{one_end}
use alice_tss.Tests.Servers.{toy_alice, request, node, known_peers, manager, toy_links, toy-Replies}

abbrev pub request_json : Json
request_json = obj (
    field (codes "hash") (str (codes "h"))
      (field (codes "pubkey") (str (codes "k")) (field (codes "message") (str (codes "00ff")) end)))

abbrev pub message_hash : Text
message_hash = to_hex_hash toy_libs (codes "00ff")

abbrev pub message_manager : P2pManager
message_manager = clone_peer_manager manager (get_protocol message_hash)

pub request_read : unmarshal_request_data toy_codec read_sign_request request_json ≡ ok request
unfolding unmarshal_request_data read_sign_request
request_read = refl

peers_reply :
    AllReply toy_links 5
      (args_for known_peers message_manager
        (codes "TssPeerService")
        (codes "SignMessage")
        (codes "data"))
      (peer_ids known_peers message_manager)
unfolding peer_ids clone_peer_manager
peers_reply = (
  toy-Replies message_manager (codes "TssPeerService") (codes "SignMessage") (codes "data")
      (codes "A"),
  (
    toy-Replies message_manager (codes "TssPeerService") (codes "SignMessage") (codes "data")
        (codes "B"),
    tt,
  ),
)

grpc_register_dkg-rpc_register_dkg_example :
    let r =
      rpc_register_dkg toy_libs toy_alice toy_codec
        (mock_handler toy_libs)
        toy_links
        (λ d. codes "data")
        known_peers
        manager
        5
        (codes "0x1")
        one_end
        node in
    grpc_register_dkg toy_libs toy_alice
      (mock_handler toy_libs)
      toy_links
      (λ q. ok [])
      (λ q. ok [])
      known_peers
      manager
      5
      (codes "0x1")
      one_end
      node
    ≡ (key_as_grpc r.0, r.1)
grpc_register_dkg-rpc_register_dkg_example =
    grpc_register_dkg-rpc_register_dkg toy_libs toy_alice toy_codec (mock_handler toy_libs)
      toy_links (λ d. codes "data") (λ q. ok []) (λ q. ok []) known_peers manager 5 (codes "0x1")
      one_end node

grpc_sign_message-rpc_sign_message_example :
    let r =
      rpc_sign_message toy_libs toy_alice toy_codec
        (mock_handler toy_libs)
        toy_links
        (λ d. codes "data")
        known_peers
        manager
        5
        request_json
        one_end
        node in
    grpc_sign_message toy_libs toy_alice
      (mock_handler toy_libs)
      toy_links
      (λ r. ok (codes "data"))
      (λ r. err (lib 8))
      known_peers
      manager
      5
      request
      one_end
      node
    ≡ (as_grpc r.0, r.1)
grpc_sign_message-rpc_sign_message_example =
    grpc_sign_message-rpc_sign_message toy_libs toy_alice toy_codec (mock_handler toy_libs)
      toy_links (λ d. codes "data") (λ r. ok (codes "data")) (λ r. err (lib 8)) known_peers manager
      5 request_json request request_json (codes "data") one_end node request_read refl refl
      peers_reply peers_reply
