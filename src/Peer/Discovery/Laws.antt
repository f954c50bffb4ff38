-- ===== src/Peer/Discovery/Laws.antt =====
-- Who is among the peers after discovery.
use alice_tss.Base.{
  ℕ, zero, suc, ◌≡◌, ◌≢◌, refl, ◌∙◌, sym, Bool, true, false, Option, none, some, ◌⊎◌, inl, inr,
  List, [], ◌∷◌, ◌++◌, Text, codes, text_eq, text_eq→eq, text_eq_refl, length, Dict, lookup, insert,
  lookup-insert, Result, ok, err, panic, ◌>>=◌, Error, arith, if◌then◌else◌,
}
use mathlib.Core.Option.{some-injective}
use alice_tss.Peer.Manager.{Heap, P2pManager, map_at, set_map, add_peer_id}
use alice_tss.Peer.Manager.Laws.{IsLive, map_at-set_map}
use alice_tss.Peer.Discovery.{PeerFound, handle_peer_found}

length-set_map : (h : Heap) (i : ℕ) (m : Dict Text) → length (set_map h i m) ≡ length h
length-set_map [] i m = refl
length-set_map (x ∷ h) zero m = refl
length-set_map (x ∷ h) (suc i) m = omega (arith, length-set_map h i m)

module _ (pm : P2pManager) (host_id : Text) (dial : PeerFound → Option Error) where
  -- What mDNS finds, one after another.
  abbrev pub find_all : List PeerFound → Heap → Result Heap
  find_all [] h = ok h
  find_all (pi ∷ pis) h = handle_peer_found h pm host_id dial pi >>= λ h'. find_all pis h'

  -- The entry is that of a peer that was found: another node than the own one, that could be dialled, under
  -- the first of its addresses.
  pub record IsFound (pi : PeerFound) (k v : Text) : Type 0 where
    pub same_id : pi.id ≡ k
    pub not_self : k ≢ host_id
    pub dialled : dial pi ≡ none
    pub addr : Text
    pub others : List Text
    pub first_addr : pi.addrs ≡ addr ∷ others
    pub entry : v ≡ addr ++ (codes "/p2p/" ++ k)

  abbrev pub FoundIn : List PeerFound → Text → Text → Type 0
  FoundIn [] k v = ⊥
  FoundIn (pi ∷ pis) k v = IsFound pi k v ⊎ FoundIn pis k v

  -- What the handler did to the peers of the manager.
  record Handled (h h' : Heap) (pi : PeerFound) : Type 0 where
    live : IsLive h' pm
    old_or_found :
        (k v : Text)
        → lookup k (map_at h' pm.peers) ≡ some v
        → (lookup k (map_at h pm.peers) ≡ some v) ⊎ IsFound pi k v

  unchanged :
      (h h' : Heap) (pi : PeerFound)
      → IsLive h pm
      → ◌≡◌ {A = Result Heap} (ok h) (ok h')
      → Handled h h' pi
  unchanged h h' pi live e =
      let e' : h ≡ h' = cc in
      record { live = rw (← e') live; old_or_found = λ k v q. inl (rw (← e') at q) }

  added :
      (h : Heap) (pi : PeerFound) (a : Text) (rest : List Text)
      → IsLive h pm
      → pi.addrs ≡ a ∷ rest
      → pi.id ≢ host_id
      → dial pi ≡ none
      → Handled h (add_peer_id h pm pi.id a) pi
  unfolding add_peer_id
  added h pi a rest live first other reached =
      let v0 : Text = a ++ (codes "/p2p/" ++ pi.id) in
      let m = insert pi.id v0 (map_at h pm.peers) in
      record {
        live = omega (arith, live, length-set_map h pm.peers m);
        old_or_found = λ k v q.
            let there : (if text_eq pi.id k then some v0 else lookup k (map_at h pm.peers))
                ≡ some v =
              sym (lookup-insert pi.id k v0 (map_at h pm.peers))
              ∙ (rw (map_at-set_map h pm.peers m live) at q) in
            split k v (text_eq pi.id k) refl there;
      }
    where
      split :
          (k v : Text) (b : Bool)
          → text_eq pi.id k ≡ b
          → (if text_eq pi.id k
              then some (a ++ (codes "/p2p/" ++ pi.id))
              else lookup k (map_at h pm.peers))
            ≡ some v
          → (lookup k (map_at h pm.peers) ≡ some v) ⊎ IsFound pi k v
      split k v false ne q = inl (rw ne at q)
      split k v true same q =
          let e = text_eq→eq pi.id k same in
          inr (record {
            same_id = e;
            not_self = rw (← e) other;
            dialled = reached;
            addr = a;
            others = rest;
            first_addr = first;
            entry = rw (← e) (sym (some-injective _ _ (rw same at q)));
          })

  handled :
      (h h' : Heap) (pi : PeerFound) (self : Bool) (answer : Option Error) (addrs : List Text)
      → IsLive h pm
      → text_eq pi.id host_id ≡ self
      → dial pi ≡ answer
      → pi.addrs ≡ addrs
      → handle_peer_found h pm host_id dial pi ≡ ok h'
      → Handled h h' pi
  unfolding handle_peer_found
  handled h h' pi true answer addrs live s d q e = unchanged h h' pi live (rw s at e)
  handled h h' pi false (some x) addrs live s d q e = unchanged h h' pi live (rw (s, d) at e)
  handled h h' pi false none [] live s d q e = cc (rw (s, d, q) at e)
  handled h h' pi false none (a ∷ rest) live s d q e =
      let e' : ◌≡◌ {A = Result Heap} (ok (add_peer_id h pm pi.id a)) (ok h') = rw (s, d, q) at e in
      let w : add_peer_id h pm pi.id a ≡ h' = cc in
      rw (← w) (added h pi a rest live q (λ same. cc (rw (same, text_eq_refl host_id) at s)) d)

  found_step :
      (pi : PeerFound) (pis : List PeerFound) (h h' : Heap) (k v : Text)
      → IsLive h pm
      → lookup k (map_at h' pm.peers) ≡ some v
      → ((h1 : Heap)
          → IsLive h1 pm
          → find_all pis h1 ≡ ok h'
          → (lookup k (map_at h1 pm.peers) ≡ some v) ⊎ FoundIn pis k v)
      → (r : Result Heap) → handle_peer_found h pm host_id dial pi ≡ r
      → (r >>= λ t. find_all pis t) ≡ ok h'
      → (lookup k (map_at h pm.peers) ≡ some v) ⊎ FoundIn (pi ∷ pis) k v
  found_step pi pis h h' k v live q later (ok h1) w e =
      let t = handled h h1 pi (text_eq pi.id host_id) (dial pi) pi.addrs live refl refl refl w in
      elim (later h1 t.live e) [
        | inr found ↦ inr (inr found)
        | inl old ↦ elim (t.old_or_found k v old) [ inl x ↦ inl x | inr f ↦ inr (inl f) ]
      ]
  found_step pi pis h h' k v live q later (err x) w e = cc
  found_step pi pis h h' k v live q later (panic x) w e = cc

  -- Over any sequence of peers that mDNS finds, on a manager whose map is in the heap, and where the handler
  -- does not panic, each entry among the peers then is one that was there before, or that of a found peer
  -- other than the node itself, that could be dialled, under the first of its addresses.
  pub find_all_lem :
      (pis : List PeerFound) (h h' : Heap) (k v : Text)
      → IsLive h pm
      → find_all pis h ≡ ok h'
      → lookup k (map_at h' pm.peers) ≡ some v
      → (lookup k (map_at h pm.peers) ≡ some v) ⊎ FoundIn pis k v
  find_all_lem [] h h' k v live e q = let e' : h ≡ h' = cc in inl (rw (← e') at q)
  find_all_lem (pi ∷ pis) h h' k v live e q =
      found_step pi pis h h' k v live q (λ h1 l1 e1. find_all_lem pis h1 h' k v l1 e1 q)
        (handle_peer_found h pm host_id dial pi) refl e
