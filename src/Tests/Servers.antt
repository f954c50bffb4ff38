-- ===== src/Tests/Servers.antt =====
-- The theorems on the package server, each at a concrete request.
use alice_tss.Base.{
  ℕ, ◌≡◌, refl, none, some, [], ◌∷◌, Text, codes, lookup, ok, err, lib, arith, inl, if◌then◌else◌,
  ltb, traverse_map,
}
use alice_tss.Types.{SignerConfig}
use alice_tss.Codec.BigInt.{set_string}
use alice_tss.Peer.Manager.{Heap, P2pManager, get_protocol}
use alice_tss.Utils.Convert.{convert_dkg_result, big_of, convert_bk}
use alice_tss.Store.Mock.{MockDb, new_mock_db, mock_get_signer_config}
use alice_tss.Store.Handler.{mock_handler}
use alice_tss.Service.Node.{Node}
use alice_tss.Service.Signer.{create_signer}
use alice_tss.Server.Requests.{Link, args_for, msg_to_peer}
use alice_tss.Server.Requests.Laws.{Replies}
use alice_tss.Server.Tss.{Alice, SignRequest, back, sign_message}
use alice_tss.Server.Tss.Laws.{hash_of, signer_for, sign_message_peer_fails}
use alice_tss.Tests.Toys.{toy_libs, toy_outcome}
use alice_tss.Tests.Lives.{toy_machine, sign_outcome, reshare_outcome, one_end}

abbrev pub toy_alice : Alice
toy_alice = record {
  keygen = toy_machine toy_outcome;
  signing = toy_machine sign_outcome;
  resharing = toy_machine reshare_outcome;
  Paillier = ℕ;
  new_paillier = ok 0;
  new_dkg = λ cfg. ok 0;
  new_signer = λ p d m. ok 0;
  new_reshare = λ cfg d. ok 0;
}

abbrev pub small_config : SignerConfig
small_config = record {
  share = codes "7";
  pubkey = record { x = codes "5"; y = codes "7" };
  bks = [];
}

abbrev pub request : SignRequest
request = record { hash = codes "h"; pubkey = codes "k"; message = codes "00ff" }

abbrev pub node : Node MockDb
node = record {
  handlers = [];
  store = record { dkg_results = []; signer_configs = (codes "h", small_config) ∷ [] };
}

abbrev pub empty_node : Node MockDb
empty_node = record { handlers = []; store = new_mock_db }

abbrev pub known_peers : Heap
known_peers = ((codes "A", codes "/ip4/1") ∷ (codes "B", codes "/ip4/2") ∷ []) ∷ []

abbrev pub manager : P2pManager
manager = record { id = codes "me"; protocol = codes "/x/1.0.0"; peers = 0 }

pub request_made : signer_for toy_libs toy_alice (mock_handler toy_libs) request small_config ≡ ok 0
unfolding create_signer convert_dkg_result big_of convert_bk set_string traverse_map
request_made = refl

pub config_there :
    (mock_handler toy_libs).get_signer_config node.store (codes "h") (codes "k") ≡ ok small_config
unfolding mock_get_signer_config
config_there = refl

sign_message_peer_fails_example :
    (n' : Node MockDb) × (sign_message toy_libs toy_alice
        (mock_handler toy_libs)
        request
        (back (err (lib 9)))
        one_end
        node
      ≡ (err (lib 9), n'))
    × (n'.store ≡ node.store)
    × (lookup
          (get_protocol (hash_of toy_libs toy_alice (mock_handler toy_libs) request))
          n'.handlers
        ≡ some (hash_of toy_libs toy_alice (mock_handler toy_libs) request))
sign_message_peer_fails_example =
    sign_message_peer_fails toy_libs toy_alice (mock_handler toy_libs) request small_config 0
      one_end node (lib 9) config_there request_made

-- A network on which each peer can be reached from the third attempt on.
abbrev pub toy_links : Text → ℕ → Link Text
toy_links k i = record {
  parse_addr = inl;
  addr_info = λ s. inl (record { id = s; addr = s });
  dial = λ info. if ltb i 2 then some (lib 7) else none;
  call = λ id svc method payload. inl (codes "pong");
}

pub toy-Replies :
    (pm : P2pManager) (svc_name svc_method payload k : Text)
    → Replies toy_links 5 (args_for known_peers pm svc_name svc_method payload) k
unfolding msg_to_peer
toy-Replies pm svc_name svc_method payload k = record {
  first = 2;
  reply = codes "pong";
  in_time = omega arith;
  fails_before = λ m lt. (lib 7, ground arith);
  replies = refl;
}
