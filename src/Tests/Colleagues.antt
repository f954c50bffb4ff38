-- ===== src/Tests/Colleagues.antt =====
-- The theorems on the nodes together, each at two concrete peers.
use alice_tss.Base.{
  ℕ, ◌≡◌, ◌⊎◌, inl, inr, refl, Option, some, none, [], ◌∷◌, Text, codes, lookup, ok, err, lib,
  text_eq, if◌then◌else◌, ltb, arith, All, Error, Bytes, Done, panic,
}
use alice_tss.Peer.Manager.{get_protocol, clone_peer_manager, peer_ids, target_of}
use alice_tss.Peer.Transport.{AddrInfo}
use alice_tss.Store.Mock.{MockDb, new_mock_db, mock_get_signer_config}
use alice_tss.Store.Handler.{mock_handler}
use alice_tss.Service.Node.{Node}
use alice_tss.Server.Requests.{Link, args_for, msg_to_peer, rpc_to_peer}
use alice_tss.Server.Requests.Laws.{SomeRefuses, rpc_to_peer_stuck}
use alice_tss.Server.Peers.{Formats, peer_sign_message, peer_reshare, peer_register_dkg}
use alice_tss.Server.Rpc.{waiting, rpc_sign_message}
use alice_tss.Server.Rpc.Sign.{signature_answer}
use alice_tss.Server.Tss.Laws.{final_node}
use alice_tss.Server.Cluster.{
  Colleague, Returned, outcome_only, Routed, links_to, Addressed, Connects,
}
use alice_tss.Server.Cluster.Signing.{
  Listens, CanSign, Refusing, Signs, cluster_signs, cluster_stuck,
}
use alice_tss.Tests.Toys.{toy_libs, toy_codec}
use alice_tss.Tests.Lives.{sign_outcome, mock_SignCalm, one_end}
use alice_tss.Tests.Servers.{
  toy_alice, small_config, request, node, empty_node, known_peers, manager, request_made,
  config_there,
}
use alice_tss.Tests.Clients.{request_json, request_read, message_hash, message_manager}

abbrev formats : Formats
formats = record {
  sign_json = λ b. ok request;
  sign_proto = λ b. err (lib 8);
  reshare_json = λ b. err (lib 8);
  reshare_proto = λ b. err (lib 8);
}

-- A node with the configuration of the key, and one that has none.
abbrev able : Colleague MockDb
able = record {
  alice = toy_alice;
  handler = mock_handler toy_libs;
  formats = formats;
  heap = known_peers;
  manager = manager;
  node = node;
}

abbrev unable : Colleague MockDb
unable = record able { node = empty_node }

abbrev pub parse_addr : Text → Text ⊎ Error
parse_addr = inl

abbrev pub addr_info : Text → AddrInfo ⊎ Error
addr_info s =
    inl (record { id = if text_eq s (codes "/ip4/1") then codes "A" else codes "B"; addr = s })

-- Each peer can be reached from the third attempt on.
abbrev pub dials : Text → ℕ → Option Error
dials k i = if ltb i 2 then some (lib 7) else none

abbrev both_able : Text → Colleague MockDb
both_able k = able

abbrev second_unable : Text → Colleague MockDb
second_unable k = if text_eq k (codes "A") then able else unable

-- A gorpc that passes the error of the handler on.
abbrev answer : Done → Unit {0} ⊎ Error
answer (ok _) = inl tt
answer (err e) = inr e
answer (panic x) = inr (lib 31)

answer_Returned : (r : Done) → Returned r (answer r)
answer_Returned (ok tt) = refl
answer_Returned (err e) = (e, refl)
answer_Returned (panic x) = tt

abbrev pub calls :
    {S : Type 0} → (Text → Colleague S) → Text → Text → Text → Bytes → Unit {0} ⊎ Error
calls colleagues id svc_name svc_method payload =
    let x = colleagues id in
    if text_eq svc_method (codes "SignMessage")
    then answer
        (outcome_only (peer_sign_message toy_libs x.alice x.handler x.formats payload x.node))
    else (if text_eq svc_method (codes "Reshare")
        then answer
            (outcome_only (peer_reshare toy_libs x.alice x.handler x.formats payload x.node))
        else answer (
            outcome_only (
              peer_register_dkg toy_libs x.alice x.handler x.formats x.heap x.manager payload
                x.node)))

pub calls_Routed :
    {S : Type 0} (colleagues : Text → Colleague S) → Routed toy_libs colleagues (calls colleagues)
calls_Routed colleagues = record {
  sign_message = λ id payload. answer_Returned _;
  reshare = λ id payload. answer_Returned _;
  register_dkg = λ id payload. answer_Returned _;
}

pub first_Addressed :
    (remote : Text → Text → Text → Bytes → Unit {0} ⊎ Error) (protocol : Text)
    → Addressed parse_addr addr_info dials remote known_peers
        (clone_peer_manager manager protocol)
        (codes "A")
unfolding target_of clone_peer_manager
first_Addressed remote protocol = record {
  multiaddr = codes "/ip4/1";
  info = record { id = codes "A"; addr = codes "/ip4/1" };
  parsed = refl;
  resolved = refl;
  own_id = refl;
}

pub second_Addressed :
    (remote : Text → Text → Text → Bytes → Unit {0} ⊎ Error) (protocol : Text)
    → Addressed parse_addr addr_info dials remote known_peers
        (clone_peer_manager manager protocol)
        (codes "B")
unfolding target_of clone_peer_manager
second_Addressed remote protocol = record {
  multiaddr = codes "/ip4/2";
  info = record { id = codes "B"; addr = codes "/ip4/2" };
  parsed = refl;
  resolved = refl;
  own_id = refl;
}

pub reached :
    (remote : Text → Text → Text → Bytes → Unit {0} ⊎ Error) (k : Text)
    → Connects parse_addr addr_info dials remote 5 k
reached remote k = record {
  first = 2;
  in_time = omega arith;
  fails_before = λ m lt. (lib 7, ground arith);
  connects = refl;
}

able_CanSign : (k : Text) → CanSign toy_libs both_able request (codes "data") k
able_CanSign k = record {
  config = small_config;
  signer = 0;
  read = refl;
  config_there = config_there;
  signer_made = request_made;
}

both_sign :
    All
      (Signs toy_libs toy_alice toy_codec
        (mock_handler toy_libs)
        mock_SignCalm
        both_able
        parse_addr
        addr_info
        dials
        (calls both_able)
        (calls_Routed both_able)
        (λ d. codes "data")
        known_peers
        manager
        5
        request
        (codes "data"))
      (peer_ids known_peers message_manager)
unfolding peer_ids clone_peer_manager
both_sign = (
  (
    first_Addressed (calls both_able) (get_protocol message_hash),
    reached (calls both_able) (codes "A"),
    able_CanSign (codes "A"),
  ),
  (
    (
      second_Addressed (calls both_able) (get_protocol message_hash),
      reached (calls both_able) (codes "B"),
      able_CanSign (codes "B"),
    ),
    tt,
  ),
)

-- A network on which no peer can be reached, and a call that does not come back.
abbrev pub dead : Text → ℕ → Link (Unit {0})
dead k i = record {
  parse_addr = parse_addr;
  addr_info = addr_info;
  dial = λ info. some (lib 9);
  call = λ id svc_name svc_method payload. inr (lib 9);
}

dead_refuses :
    (protocol method payload : Text)
    → SomeRefuses dead 5
        (args_for known_peers
          (clone_peer_manager manager (get_protocol protocol))
          (codes "TssPeerService")
          method
          payload)
        (peer_ids known_peers (clone_peer_manager manager (get_protocol protocol)))
unfolding peer_ids clone_peer_manager msg_to_peer
dead_refuses protocol method payload = inl (λ m. (lib 9, refl))

pub unheard :
    (protocol method payload : Text)
    → rpc_to_peer dead known_peers
        (clone_peer_manager manager (get_protocol protocol))
        (codes "TssPeerService")
        method
        payload
        5
      ≡ none
unheard protocol method payload =
    rpc_to_peer_stuck dead 5 known_peers (clone_peer_manager manager (get_protocol protocol))
      (codes "TssPeerService") method payload (dead_refuses protocol method payload)

cluster_signs_example :
    All
      (Listens toy_libs toy_alice toy_codec
        (mock_handler toy_libs)
        mock_SignCalm
        both_able
        parse_addr
        addr_info
        dials
        (calls both_able)
        (calls_Routed both_able)
        (λ d. codes "data")
        known_peers
        manager
        5
        request
        (codes "data"))
      (peer_ids known_peers message_manager)
    × (rpc_sign_message toy_libs toy_alice toy_codec
          (mock_handler toy_libs)
          (links_to parse_addr addr_info dials (calls both_able))
          (λ d. codes "data")
          known_peers
          manager
          5
          request_json
          one_end
          node
        ≡ (
          signature_answer message_hash (some sign_outcome),
          final_node toy_libs toy_alice (mock_handler toy_libs) request 0 one_end node,
        ))
    × (lookup
          (get_protocol message_hash)
          (final_node toy_libs toy_alice (mock_handler toy_libs) request 0 one_end node).handlers
        ≡ none)
    × ((rpc_sign_message toy_libs toy_alice toy_codec
          (mock_handler toy_libs)
          dead
          (λ d. codes "data")
          known_peers
          manager
          5
          request_json
          one_end
          node).0
        ≡ ok waiting)
cluster_signs_example =
    cluster_signs toy_libs toy_alice toy_codec (mock_handler toy_libs) mock_SignCalm both_able
      parse_addr addr_info dials (calls both_able) (calls_Routed both_able) (λ d. codes "data")
      known_peers manager 5 request_json one_end node request request_json small_config 0 dead
      request_read refl config_there request_made both_sign refl
      (unheard message_hash (codes "SignMessage") (codes "data"))

second_refuses : Refusing toy_libs second_unable request (codes "data") (codes "B")
unfolding mock_get_signer_config new_mock_db
second_refuses = record { error = _; read = refl; no_config = refl }

two_ids : peer_ids known_peers message_manager ≡ codes "A" ∷ codes "B" ∷ []
unfolding peer_ids clone_peer_manager
two_ids = refl

cluster_stuck_example :
    (n' : Node MockDb) × (rpc_sign_message toy_libs toy_alice toy_codec
        (mock_handler toy_libs)
        (links_to parse_addr addr_info dials (calls second_unable))
        (λ d. codes "data")
        known_peers
        manager
        5
        request_json
        one_end
        node
      ≡ (ok waiting, n'))
    × (n'.store ≡ node.store)
    × (lookup (get_protocol message_hash) n'.handlers ≡ some message_hash)
cluster_stuck_example =
    cluster_stuck toy_libs toy_alice toy_codec (mock_handler toy_libs) mock_SignCalm second_unable
      parse_addr addr_info dials (calls second_unable) (calls_Routed second_unable)
      (λ d. codes "data") known_peers manager 5 request_json one_end node request request_json
      small_config 0 (codes "A" ∷ []) [] (codes "B") request_read refl config_there request_made
      two_ids (second_Addressed (calls second_unable) (get_protocol message_hash)) second_refuses
