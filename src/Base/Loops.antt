-- ===== src/Base/Loops.antt =====
-- The loops that fill one Go map from another: `for k, v := range m { out[k] = f(v) }`, with and
-- without an early return on an error.
use alice_tss.Base.Lists.{Text, text_eq, All}
use alice_tss.Base.Outcome.{Result, ok, ◌>>=◌}
use alice_tss.Base.Maps.{Dict, insert, Fresh, IsMap, insert-of_Fresh}
use mathlib.Core.Path.{◌≡◌, refl, ap, ◌∙◌, sym}
use mathlib.Core.Bool.{false}
use mathlib.Core.List.{[], ◌∷◌, ◌++◌, append-nil, append_assoc}
use native.Mathlib.Omega.{arith}

text_eq_comm : (s t : Text) → text_eq s t ≡ text_eq t s
text_eq_comm [] [] = refl
text_eq_comm [] (b ∷ t) = refl
text_eq_comm (a ∷ s) [] = refl
text_eq_comm (a ∷ s) (b ∷ t) = ground (arith, text_eq_comm s t)

module _ {ℓ κ} {V : Type ℓ} {W : Type κ} where
  abbrev pub map_values : (V → W) → Dict V → Dict W
  map_values f [] = []
  map_values f ((k, v) ∷ m) = (k, f v) ∷ map_values f m

  unfoldable pub copy_map : (V → W) → Dict W → Dict V → Dict W
  copy_map f acc [] = acc
  copy_map f acc ((k, v) ∷ m) = copy_map f (insert k (f v) acc) m

  unfoldable pub traverse_map : (V → Result W) → Dict W → Dict V → Result (Dict W)
  traverse_map f acc [] = ok acc
  traverse_map f acc ((k, v) ∷ m) = f v >>= λ w. traverse_map f (insert k w acc) m

  -- No key of the second map is in the first.
  abbrev Disjoint : Dict W → Dict V → Type 0
  Disjoint acc [] = Unit
  Disjoint acc ((k, v) ∷ m) = Fresh k acc × Disjoint acc m

module _ {ℓ κ} {V : Type ℓ} (W : Type κ) where
  Disjoint-nil : (m : Dict V) → Disjoint {W = W} [] m
  Disjoint-nil [] = tt
  Disjoint-nil ((k, v) ∷ m) = (tt, Disjoint-nil m)

module _ {ℓ} {V : Type ℓ} where
  Fresh-snoc :
      (j k : Text) (v : V) (m : Dict V)
      → Fresh k m
      → text_eq j k ≡ false
      → Fresh k (m ++ (j, v) ∷ [])
  Fresh-snoc j k v [] h e = (e, tt)
  Fresh-snoc j k v ((i, w) ∷ m) h e = (h.0, Fresh-snoc j k v m h.1 e)

module _ {ℓ κ} {V : Type ℓ} {W : Type κ} where
  Disjoint-snoc :
      (j : Text) (w : W) (acc : Dict W) (m : Dict V)
      → Disjoint acc m
      → Fresh j m
      → Disjoint (acc ++ (j, w) ∷ []) m
  Disjoint-snoc j w acc [] h e = tt
  Disjoint-snoc j w acc ((k, v) ∷ m) h e =
      (Fresh-snoc j k w acc h.0 (text_eq_comm j k ∙ e.0), Disjoint-snoc j w acc m h.1 e.1)

  copy_map-append :
      (f : V → W) (acc : Dict W) (m : Dict V)
      → Disjoint acc m
      → IsMap m
      → copy_map f acc m ≡ acc ++ map_values f m
  unfolding copy_map
  copy_map-append f acc [] d h = sym (append-nil acc)
  copy_map-append f acc ((k, v) ∷ m) d h = rw (insert-of_Fresh k (f v) acc d.0) (
      copy_map-append f (acc ++ (k, f v) ∷ []) m (Disjoint-snoc k (f v) acc m d.1 h.0) h.1
      ∙ append_assoc acc ((k, f v) ∷ []) (map_values f m))

  -- Filling an empty map applies the function to each entry.
  pub copy_map_lem : (f : V → W) (m : Dict V) → IsMap m → copy_map f [] m ≡ map_values f m
  copy_map_lem f m h = copy_map-append f [] m (Disjoint-nil W m) h

module _ {ℓ κ} {V : Type ℓ} {W : Type κ} (f : V → Result W) (g : W → V) where
  traverse_map-append :
      (acc : Dict W) (m : Dict W)
      → All (λ e. f (g e.1) ≡ ok e.1) m
      → Disjoint acc m
      → IsMap m
      → traverse_map f acc (map_values g m) ≡ ok (acc ++ m)
  unfolding traverse_map
  traverse_map-append acc [] a d h = ap ok (sym (append-nil acc))
  traverse_map-append acc ((k, w) ∷ m) a d h =
      rw (a.0, insert-of_Fresh k w acc d.0)
        (traverse_map-append (acc ++ (k, w) ∷ []) m a.1 (Disjoint-snoc k w acc m d.1 h.0) h.1
          ∙ ap ok (append_assoc acc ((k, w) ∷ []) m))

  -- Reading back every entry that was written gives the map that was written.
  pub traverse_map-map_values :
      (m : Dict W)
      → All (λ e. f (g e.1) ≡ ok e.1) m
      → IsMap m
      → traverse_map f [] (map_values g m) ≡ ok m
  traverse_map-map_values m a h = traverse_map-append [] m a (Disjoint-nil W m) h
