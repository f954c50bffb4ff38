-- ===== src/Tests/Connections.antt =====
-- The goroutines that connect to the peers, and discovery, at concrete peers.
use alice_tss.Base.{
  ℕ, ◌≡◌, refl, true, Option, none, some, ◌⊎◌, List, [], ◌∷◌, Text, codes, lookup, Error, lib, ltb,
  All, arith, if◌then◌else◌,
}
use alice_tss.Steps.{here, there, start, after, Inevitable}
use alice_tss.Peer.Manager.{Heap, P2pManager, map_at, add_peer_id, peers_of}
use alice_tss.Peer.Transport.{AddrInfo, connect}
use alice_tss.Peer.Connecting.{
  gone, retries, connects, leave, Connecting, Step, work, wait_over, ensure_all_connected,
}
use alice_tss.Peer.Connecting.Laws.{Connects, Dials, ensure_all_connected_waits}
use alice_tss.Peer.Connecting.Ends.{Answers, Returned, ensure_all_connected_ends}
use alice_tss.Peer.Discovery.{PeerFound, handle_peer_found}
use alice_tss.Peer.Discovery.Laws.{FoundIn, find_all_lem}
use alice_tss.Tests.Peers.{toy_net}

abbrev two_peers : Heap
two_peers = ((codes "A", codes "/ip4/1") ∷ (codes "B", codes "/ip4/2") ∷ []) ∷ []

abbrev manager : P2pManager
manager = record { id = codes "me"; protocol = codes "/x/1.0.0"; peers = 0 }

-- Each peer answers at the second attempt.
abbrev second_time : Text → ℕ → AddrInfo → Option Error
second_time t i info = if ltb i 1 then some (lib 7) else none

abbrev connected : Connecting
connected = record {
  dialers =
      record { target = codes "/ip4/1"; phase = gone }
      ∷ record { target = codes "/ip4/2"; phase = gone }
      ∷ [];
  left = 0;
  returned = true;
}

reach_connected : Dials toy_net second_time two_peers manager connected
unfolding ensure_all_connected connect peers_of
reach_connected =
    after
      (after
        (after
          (after
            (after
              (after (after start (work (there (here (retries (lib 7) refl)))))
                (work (here (retries (lib 7) refl))))
              (work (there (here (connects refl)))))
            (work (here (connects refl))))
          (work (here leave)))
        (work (there (here leave))))
      (wait_over refl refl)

ensure_all_connected_waits_example :
    All (Connects toy_net second_time) (codes "/ip4/1" ∷ codes "/ip4/2" ∷ [])
unfolding peers_of
ensure_all_connected_waits_example =
    ensure_all_connected_waits toy_net second_time two_peers manager reach_connected refl

answers : (t : Text) → Answers toy_net second_time (λ t. 1) t
unfolding connect
answers t = (refl, λ i x e. ground arith)

ensure_all_connected_ends_example :
    Inevitable
      (Step toy_net second_time)
      (Returned toy_net second_time (λ t. 1) two_peers manager)
      (ensure_all_connected two_peers manager)
unfolding peers_of
ensure_all_connected_ends_example =
    ensure_all_connected_ends toy_net second_time (λ t. 1) two_peers manager
      (answers (codes "/ip4/1"), (answers (codes "/ip4/2"), tt)) start

abbrev all_answer : PeerFound → Option Error
all_answer pi = none

abbrev finds : List PeerFound
finds =
    record { id = codes "me"; addrs = codes "/ip4/0" ∷ [] }
    ∷ record { id = codes "C"; addrs = codes "/ip4/3" ∷ [] }
    ∷ []

find_all_lem_example :
    (lookup (codes "C") (map_at two_peers 0) ≡ some (codes "/ip4/3/p2p/C"))
    ⊎ FoundIn manager (codes "me") all_answer finds (codes "C") (codes "/ip4/3/p2p/C")
unfolding handle_peer_found add_peer_id
find_all_lem_example =
    find_all_lem manager (codes "me") all_answer finds two_peers
      (add_peer_id two_peers manager (codes "C") (codes "/ip4/3")) (codes "C")
      (codes "/ip4/3/p2p/C") (omega arith) refl refl
