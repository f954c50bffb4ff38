-- ===== src/Tests/Cluster.antt =====
-- The operations over the three nodes of one process, at concrete hosts.
use alice_tss.Base.{
  ℕ, ◌≡◌, refl, sym, subst, true, Option, none, some, List, [], ◌∷◌, Text, codes, ok, err, Error,
  lib, ◌==◌, if◌then◌else◌,
}
use alice_tss.Libs.{DkgOutcome}
use alice_tss.Utils.Keys.{random_hash, to_hex_hash, to_hex}
use alice_tss.Peer.Manager.{Heap, P2pManager, get_protocol, num_peers, new_peer_manager}
use alice_tss.Store.Mock.{MockDb, new_mock_db}
use alice_tss.Store.Handler.{mock_handler}
use alice_tss.Service.Dkg.{new_dkg_service}
use alice_tss.Server.Tss.{Alice, Called, register_dkg, got}
use alice_tss.Server.Rpc.{generated, dkg_reply}
use alice_tss.Server.SelfService.{create_pm, create_managers, wait_for_peers}
use alice_tss.Steps.{here, there, start, after}
use alice_tss.Server.SelfService.Gather.{
  gone, succeed, leave, answered, Gathering, work, close_done, take_done, gathering,
}
use alice_tss.Server.SelfService.Gather.Invariant.{Gathers}
use alice_tss.Server.SelfService.Calls.{Cluster, Calls, call_dkg, self_register_dkg}
use alice_tss.Server.SelfService.Calls.Dkg.{outcomes, Listen}
use alice_tss.Server.SelfService.Calls.Laws.{Connected, self_register_dkg_may_hide}
use alice_tss.Server.Rpc.Self.{rpc_register_self_dkg}
use alice_tss.Server.Rpc.Self.Laws.{rpc_register_self_dkg_answers}
use alice_tss.Tests.Toys.{toy_libs, toy_outcome}
use alice_tss.Tests.Lives.{mock_SaveCalm, one_end}
use alice_tss.Tests.Servers.{toy_alice}

abbrev pub no_discovery_error : ℕ → Option Error
no_discovery_error i = none

abbrev pub one_tick : List (List (Option ℕ))
one_tick = (some 2 ∷ some 2 ∷ some 2 ∷ []) ∷ []

abbrev pub three_nodes : List (Option ℕ × Text)
three_nodes = (some 0, codes "A") ∷ (some 1, codes "B") ∷ (some 2, codes "C") ∷ []

abbrev peer : Text → Text × Text
peer id = (id, codes "/ip4/1")

-- The maps once the nodes have found each other; in the second heap the last two have found a stranger too.
abbrev pub found : Heap
found =
    (peer (codes "B") ∷ peer (codes "C") ∷ [])
    ∷ (peer (codes "A") ∷ peer (codes "C") ∷ [])
    ∷ (peer (codes "A") ∷ peer (codes "B") ∷ [])
    ∷ []

abbrev strange : Heap
strange =
    (peer (codes "B") ∷ peer (codes "C") ∷ [])
    ∷ (peer (codes "A") ∷ peer (codes "C") ∷ peer (codes "X") ∷ [])
    ∷ (peer (codes "A") ∷ peer (codes "B") ∷ peer (codes "X") ∷ [])
    ∷ []

abbrev hash : Text
hash = random_hash toy_libs (codes "noon") none 5

abbrev pub manager_of : Text → Text → ℕ → P2pManager
manager_of protocol id i = record { id = id; protocol = get_protocol protocol; peers = i }

abbrev cluster : Cluster MockDb
cluster = record { first = []; second = []; third = []; store = new_mock_db }

connected :
    (a : Alice) (peers : Heap)
    → Connected toy_libs a
        (mock_handler toy_libs)
        no_discovery_error
        one_tick
        three_nodes
        []
        peers
        hash
        (manager_of hash (codes "A") 0)
        (manager_of hash (codes "B") 1)
        (manager_of hash (codes "C") 2)
unfolding create_pm create_managers new_peer_manager wait_for_peers random_hash to_hex_hash to_hex
connected a peers = refl

-- The wait is over, with no error.
abbrev pub waited : Gathering
waited = record {
  workers = gone ∷ gone ∷ [];
  errors = [];
  left = 0;
  done_closed = true;
  primary = answered (ok tt);
}

pub reach_waited : Gathers (none ∷ none ∷ []) none waited
unfolding gathering
reach_waited =
    after
      (after
        (after
          (after (after (after start (work (here succeed))) (work (there (here succeed))))
            (work (here leave)))
          (work (there (here leave))))
        (close_done refl refl))
      (take_done refl refl)

abbrev calls : Calls (Called ℕ DkgOutcome) MockDb
calls =
    call_dkg toy_libs toy_alice found (mock_handler toy_libs) hash waited.primary one_end cluster
      (manager_of hash (codes "A") 0) (manager_of hash (codes "B") 1)
      (manager_of hash (codes "C") 2)

calls_fine : outcomes calls ≡ none ∷ none ∷ []
unfolding register_dkg new_dkg_service
calls_fine = refl

rpc_register_self_dkg_answers_example :
    (c' : Cluster MockDb) × (rpc_register_self_dkg toy_libs toy_alice
        (mock_handler toy_libs)
        no_discovery_error
        one_tick
        []
        found
        (some three_nodes)
        hash
        waited.primary
        one_end
        cluster
      ≡ (ok (generated (dkg_reply toy_libs hash toy_outcome)), c'))
    × Listen toy_libs toy_alice (mock_handler toy_libs) found hash c'
rpc_register_self_dkg_answers_example =
    rpc_register_self_dkg_answers toy_libs toy_alice (mock_handler toy_libs) no_discovery_error
      one_tick three_nodes [] found mock_SaveCalm (codes "noon") none 5
      (manager_of hash (codes "A") 0) (manager_of hash (codes "B") 1)
      (manager_of hash (codes "C") 2) 0 0 0 one_end cluster toy_outcome (connected toy_alice found)
      refl refl refl refl (subst (λ os. Gathers os none waited) (sym calls_fine) reach_waited) refl
      refl

-- Alice refuses any threshold but two.
abbrev strict_alice : Alice
strict_alice = record toy_alice {
  new_dkg = λ cfg. if cfg.threshold == 2 then ok 0 else err (lib 5);
}

self_register_dkg_may_hide_example :
    (s : Gathering) × (r : Calls (Called ℕ DkgOutcome) MockDb) × Gathers (outcomes r) none s
    × (self_register_dkg toy_libs strict_alice no_discovery_error one_tick three_nodes [] strange
          (some (mock_handler toy_libs))
          hash
          s.primary
          one_end
          cluster
        ≡ ok r)
    × (r.node1 ≡ err (lib 5))
    × (r.node2 ≡ err (lib 5))
    × (r.primary ≡ got (some toy_outcome))
unfolding num_peers
self_register_dkg_may_hide_example =
    self_register_dkg_may_hide toy_libs strict_alice (mock_handler toy_libs) no_discovery_error
      one_tick three_nodes [] strange mock_SaveCalm hash (manager_of hash (codes "A") 0)
      (manager_of hash (codes "B") 1) (manager_of hash (codes "C") 2) 0 0 0 one_end cluster (lib 5)
      (lib 5) (connected strict_alice strange) refl refl refl refl
