-- ===== src/Peer/Manager/Laws.antt =====
-- What the operations on peers do to each other, through a clone as well.
use alice_tss.Base.{
  ℕ, zero, suc, ◌%◌, ◌^◌, ◌<◌, ◌≡◌, refl, ◌∙◌, ap, Bool, true, false, Option, none, some, [], ◌∷◌,
  ◌++◌, Text, codes, text_eq, length, length-append, Dict, lookup, insert, lookup-insert, arith,
  if◌then◌else◌,
}
use alice_tss.Peer.Manager.{
  Heap, P2pManager, map_at, set_map, keys, or_empty, new_peer_manager, clone_peer_manager,
  num_peers, peer_ids, add_peer_id, target_of,
}

-- The reference stands for a map of the heap.
abbrev pub IsLive : Heap → P2pManager → Type 0
IsLive h p = p.peers < length h

pub map_at-set_map :
    (h : Heap) (i : ℕ) (m : Dict Text) → i < length h → map_at (set_map h i m) i ≡ m
map_at-set_map [] i m lt = elim lt [ ]
map_at-set_map (x ∷ h) zero m lt = refl
map_at-set_map (x ∷ h) (suc i) m lt = map_at-set_map h i m (omega arith)

map_at-append : (h : Heap) (m : Dict Text) → map_at (h ++ m ∷ []) (length h) ≡ m
map_at-append [] m = refl
map_at-append (x ∷ h) m = map_at-append h m

or_empty-if :
    (t : Bool) (a : Text) (o : Option Text)
    → or_empty (if t then some a else o) ≡ (if t then a else or_empty o)
or_empty-if true a o = refl
or_empty-if false a o = refl

-- A peer that is added through a manager whose map is in the heap is found through every clone of
-- it, whatever the clone's protocol: a message to it goes to its address, "/p2p/" and its id, and a
-- message to any other peer to where it went before.
pub target_of-add_peer_id :
    (h : Heap) (p : P2pManager) (protocol k j addr : Text)
    → IsLive h p
    → target_of (add_peer_id h p k addr) (clone_peer_manager p protocol) j
      ≡ (if text_eq k j then addr ++ (codes "/p2p/" ++ k) else target_of h p j)
unfolding target_of add_peer_id clone_peer_manager
target_of-add_peer_id h p protocol k j addr live =
    rw
      (
        map_at-set_map h p.peers (insert k (addr ++ (codes "/p2p/" ++ k)) (map_at h p.peers)) live,
        lookup-insert k j (addr ++ (codes "/p2p/" ++ k)) (map_at h p.peers),
      )
      (or_empty-if (text_eq k j) (addr ++ (codes "/p2p/" ++ k)) (lookup j (map_at h p.peers)))

-- A new manager knows no peer.
pub num_peers-new_peer_manager :
    (h : Heap) (id protocol : Text)
    → let (p, h') = new_peer_manager h id protocol in
      (num_peers h' p ≡ 0) × (peer_ids h' p ≡ []) × IsLive h' p
unfolding new_peer_manager num_peers peer_ids
num_peers-new_peer_manager h id protocol = (
  rw (map_at-append h []) refl,
  rw (map_at-append h []) refl,
  omega (arith, length-append {0} h ([] ∷ [])),
)

length-keys : (m : Dict Text) → length (keys m) ≡ length m
length-keys [] = refl
length-keys ((k, v) ∷ m) = ap suc (length-keys m)

-- One more entry, if the key was not there.
abbrev pub grown : Option Text → ℕ → ℕ
grown none n = suc n
grown (some _) n = n

length-insert : (k v : Text) (m : Dict Text) → length (insert k v m) ≡ grown (lookup k m) (length m)
length-insert k v [] = refl
length-insert k v ((j, w) ∷ m) = ground (arith, length-insert k v m)

-- Adding a peer through a manager whose map is in the heap is counted by every clone: one more if it
-- was not known, in a uint32, and the ids that are listed are as many as the map has entries.
pub num_peers-add_peer_id :
    (h : Heap) (p : P2pManager) (protocol k addr : Text)
    → IsLive h p
    → let h' = add_peer_id h p k addr in
      (num_peers h' (clone_peer_manager p protocol)
        ≡ grown (lookup k (map_at h p.peers)) (length (map_at h p.peers)) % 2 ^ 32)
      × (length (peer_ids h' (clone_peer_manager p protocol))
          ≡ grown (lookup k (map_at h p.peers)) (length (map_at h p.peers)))
unfolding num_peers add_peer_id clone_peer_manager peer_ids
num_peers-add_peer_id h p protocol k addr live =
    let v : Text = addr ++ (codes "/p2p/" ++ k) in
    let m = map_at h p.peers in
    (
      rw (map_at-set_map h p.peers (insert k v m) live, length-insert k v m) refl,
      rw (map_at-set_map h p.peers (insert k v m) live)
          (length-keys (insert k v m) ∙ length-insert k v m),
    )
