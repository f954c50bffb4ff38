-- ===== src/Server/SelfService.antt =====
-- server/self_service.go: the three nodes that one process runs for itself. How they are made, closed and
-- connected. The operations over them are in the modules below.
pub mod Laws
pub mod Gather
pub mod Calls
use alice_tss.Base.{
  ℕ, ◌+◌, Bool, true, false, ◌&&◌, Option, none, some, List, [], ◌∷◌, ◌++◌, Text, Result, Done, ok,
  err, panic, ◌>>=◌, Error, empty_protocol, setup_failed, timeout, node_failed, wrapped,
  nil_dereference, leb, if◌then◌else◌,
}
use alice_tss.Peer.Manager.{Heap, P2pManager, new_peer_manager, get_protocol}

-- `PortSelf1`, `PortSelf2` and `PortSelf3`
abbrev pub self_ports : List ℕ
self_ports = 11111 ∷ 11112 ∷ 11113 ∷ []

-- `numNodes - 1`
abbrev pub required_peers : ℕ
required_peers = 2

-- A host that is in the service, with its id.
abbrev pub Member : Type 0 → Type 0
Member Host = Host × Text

abbrev noted : ℕ → Option Error → List (ℕ × Error) → List (ℕ × Error)
noted i none es = es
noted i (some e) es = (i, e) ∷ es

-- The source formats all errors; the first stands for them.
abbrev pub shutdown : List (ℕ × Error) → Done
shutdown [] = ok tt
shutdown ((i, e) ∷ es) = err (node_failed i e)

abbrev created :
    List (Option P2pManager) × Heap × List (ℕ × Error)
    → Done
    → Result (List (Option P2pManager)) × Heap
created (pms, h', e ∷ es) waited = (err setup_failed, h')
created (pms, h', []) (ok _) = (ok pms, h')
created (pms, h', []) (err e) = (err (wrapped e), h')
created (pms, h', []) (panic x) = (panic x, h')

module _ {Host : Type 0} where
  abbrev hosts_of : List (Member Host) → List Host
  hosts_of [] = []
  hosts_of ((h, id) ∷ ms) = h ∷ hosts_of ms

  -- The loop of `NewSelfService`, from the index `i`, with the hosts made so far; beside the result, the
  -- hosts that are closed on an error.
  unfoldable pub make_hosts :
      (ℕ → Result (Member Host))
      → ℕ
      → List ℕ
      → List (Member Host)
      → Result (List (Member Host)) × List Host
  make_hosts make i [] made = (ok made, [])
  make_hosts make i (port ∷ ports) made = elim (make port) [
    | ok m ↦ make_hosts make (i + 1) ports (made ++ m ∷ [])
    | err e ↦ (err (node_failed i e), hosts_of made)
    | panic x ↦ (panic x, [])
  ]

  -- `NewSelfService`, over `MakeBasicHostByID`.
  unfoldable pub new_self_service :
      (ℕ → Result (Member Host)) → Result (List (Member Host)) × List Host
  unfolding make_hosts
  new_self_service make = make_hosts make 0 self_ports []

  -- The loop of `Close`: what is closed, and the errors by the index of the host. A host that is nil is
  -- passed over.
  unfoldable pub close_hosts :
      (Host → Option Error) → ℕ → List (Option Host) → List Host × List (ℕ × Error)
  close_hosts close i [] = ([], [])
  close_hosts close i (none ∷ hosts) = close_hosts close (i + 1) hosts
  close_hosts close i (some h ∷ hosts) =
      let (closed, errors) = close_hosts close (i + 1) hosts in
      (h ∷ closed, noted i (close h) errors)

  -- `Close`
  unfoldable pub close_self_service : (Host → Option Error) → List (Option Host) → List Host × Done
  unfolding close_hosts
  close_self_service close hosts =
      let (closed, errors) = close_hosts close 0 hosts in (closed, shutdown errors)

-- One round of `waitForPeers`: the number of peers of each manager, none for one that is nil.
abbrev pub all_connected : List (Option ℕ) → Bool
all_connected [] = true
all_connected (none ∷ r) = false
all_connected (some n ∷ r) = leb required_peers n && all_connected r

-- `waitForPeers`, over the ticks that come before the time is up.
unfoldable pub wait_for_peers : List (List (Option ℕ)) → Done
wait_for_peers [] = err timeout
wait_for_peers (counts ∷ ticks) =
    let rest = wait_for_peers ticks in if all_connected counts then ok tt else rest

module _ {Host : Type 0} where
  -- The loop of `CreatePm`: the managers, with a nil one for a nil host, the heap of their maps, and
  -- whether an error was noted. `discover` is what `SetupDiscovery` returns for a node.
  unfoldable pub create_managers :
      (ℕ → Option Error)
      → Text
      → ℕ
      → List (Option Host × Text)
      → Heap
      → List (Option P2pManager) × Heap × List (ℕ × Error)
  create_managers discover protocol_id i [] h = ([], h, [])
  create_managers discover protocol_id i ((none, id) ∷ nodes) h =
      let (pms, h', es) = create_managers discover protocol_id (i + 1) nodes h in
      (none ∷ pms, h', (i, setup_failed) ∷ es)
  create_managers discover protocol_id i ((some host, id) ∷ nodes) h =
      let (pm, h1) = new_peer_manager h id (get_protocol protocol_id) in
      let (pms, h', es) = create_managers discover protocol_id (i + 1) nodes h1 in
      (some pm ∷ pms, h', noted i (discover i) es)

  -- `CreatePm`
  unfoldable pub create_pm :
      (ℕ → Option Error)
      → List (List (Option ℕ))
      → Text
      → List (Option Host × Text)
      → Heap
      → Result (List (Option P2pManager)) × Heap
  unfolding create_managers
  create_pm discover ticks [] nodes h = (err empty_protocol, h)
  create_pm discover ticks (c ∷ protocol_id) nodes h =
      created (create_managers discover (c ∷ protocol_id) 0 nodes h) (wait_for_peers ticks)
