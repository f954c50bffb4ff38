-- ===== src/Peer/Manager.antt =====
-- peer/pm.go: the list of peers. A manager holds a reference to its map, so a clone of a manager
-- shares the map: the maps live in a heap.
pub mod Laws
pub mod Protocols
use alice_tss.Base.{
  ℕ, zero, suc, ◌+◌, ◌%◌, ◌^◌, ◌≡◌, Option, none, some, List, [], ◌∷◌, ◌++◌, Text, codes, length,
  Dict, lookup, insert,
}

-- `GetProtocol`
unfoldable pub get_protocol : Text → Text
get_protocol id = codes "/" ++ (id ++ codes "/1.0.0")

pub record P2pManager : Type 0 where
  pub id : Text
  pub protocol : Text
  -- where in the heap the map `peers` stands
  pub peers : ℕ

-- The maps of all managers, by reference.
abbrev pub Heap : Type 0
Heap = List (Dict Text)

abbrev pub map_at : Heap → ℕ → Dict Text
map_at [] i = []
map_at (m ∷ h) zero = m
map_at (m ∷ h) (suc i) = map_at h i

abbrev pub set_map : Heap → ℕ → Dict Text → Heap
set_map [] i m = []
set_map (x ∷ h) zero m = m ∷ h
set_map (x ∷ h) (suc i) m = x ∷ set_map h i m

-- `NewPeerManager` makes a new map.
unfoldable pub new_peer_manager : Heap → Text → Text → P2pManager × Heap
new_peer_manager h id protocol =
    (record { id = id; protocol = protocol; peers = length h }, h ++ [] ∷ [])

unfoldable pub set_protocol : P2pManager → Text → P2pManager
set_protocol p id = record p { protocol = id }

-- `ClonePeerManager` copies the struct, the reference to the map included.
unfoldable pub clone_peer_manager : P2pManager → Text → P2pManager
unfolding set_protocol
clone_peer_manager p protocol = set_protocol p protocol

-- `NumPeers`, in a uint32
unfoldable pub num_peers : Heap → P2pManager → ℕ
num_peers h p = length (map_at h p.peers) % 2 ^ 32

unfoldable pub self_id : P2pManager → Text
self_id p = p.id

abbrev pub keys : Dict Text → List Text
keys [] = []
keys ((k, v) ∷ m) = k ∷ keys m

-- `PeerIDs`, in the order of the map.
unfoldable pub peer_ids : Heap → P2pManager → List Text
peer_ids h p = keys (map_at h p.peers)

-- `Peers`
unfoldable pub peers_of : Heap → P2pManager → Dict Text
peers_of h p = map_at h p.peers

-- `AddPeerID`: the address, "/p2p/" and the id, under the id.
unfoldable pub add_peer_id : Heap → P2pManager → Text → Text → Heap
add_peer_id h p peer_id addr =
    set_map h p.peers (insert peer_id (addr ++ (codes "/p2p/" ++ peer_id)) (map_at h p.peers))

abbrev or_empty : Option Text → Text
or_empty none = []
or_empty (some s) = s

-- The target that `MustSend` takes for a peer; a peer that is not known has the empty one.
unfoldable pub target_of : Heap → P2pManager → Text → Text
target_of h p peer_id = or_empty (lookup peer_id (map_at h p.peers))
