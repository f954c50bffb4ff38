-- ===== src/Base/Maps.antt =====
-- Go maps with string keys, as association lists. A key occurs once, and the order of the entries
-- stands for the order, unspecified in Go, in which `range` visits them.
use mathlib.Core.Path.{◌≡◌, refl, ap}
use mathlib.Core.Bool.{false}
use mathlib.Core.Option.{Option, none, some}
use mathlib.Core.List.{List, [], ◌∷◌, ◌++◌}
use native.Mathlib.Omega.{arith}
use alice_tss.Base.Tests.{if◌then◌else◌}
use alice_tss.Base.Lists.{Text, text_eq, text_eq_iff}

abbrev pub Dict {ℓ} : Type ℓ → Type ℓ
Dict V = List (Text × V)

module _ {ℓ} {V : Type ℓ} where
  abbrev pub lookup : Text → Dict V → Option V
  lookup k [] = none
  lookup k ((j, v) ∷ m) = if text_eq j k then some v else lookup k m

  -- `m[k] = v`: an old entry is overwritten where it stands, a new one comes last.
  abbrev pub insert : Text → V → Dict V → Dict V
  insert k v [] = (k, v) ∷ []
  insert k v ((j, w) ∷ m) = if text_eq j k then (k, v) ∷ m else (j, w) ∷ insert k v m

  -- `delete(m, k)`
  abbrev pub erase : Text → Dict V → Dict V
  erase k [] = []
  erase k ((j, w) ∷ m) = let rest = erase k m in if text_eq j k then rest else (j, w) ∷ rest

  pub lookup-insert :
      (k j : Text) (v : V) (m : Dict V)
      → lookup j (insert k v m) ≡ (if text_eq k j then some v else lookup j m)
  lookup-insert k j v [] = refl
  lookup-insert k j v ((i, w) ∷ m) =
      ground (arith, text_eq_iff k j, text_eq_iff i k, text_eq_iff i j, lookup-insert k j v m)

  pub lookup-erase :
      (k j : Text) (m : Dict V) → lookup j (erase k m) ≡ (if text_eq k j then none else lookup j m)
  lookup-erase k j [] = ground arith
  lookup-erase k j ((i, w) ∷ m) =
      ground (arith, text_eq_iff k j, text_eq_iff i k, text_eq_iff i j, lookup-erase k j m)

  -- The key does not occur.
  abbrev pub Fresh : Text → Dict V → Type 0
  Fresh k [] = Unit
  Fresh k ((j, _) ∷ m) = (text_eq j k ≡ false) × Fresh k m

  -- Each key occurs once: what a Go map is by construction.
  abbrev pub IsMap : Dict V → Type 0
  IsMap [] = Unit
  IsMap ((j, _) ∷ m) = Fresh j m × IsMap m

  pub insert-of_Fresh :
      (k : Text) (v : V) (m : Dict V) → Fresh k m → insert k v m ≡ m ++ (k, v) ∷ []
  insert-of_Fresh k v [] h = refl
  insert-of_Fresh k v ((j, w) ∷ m) h = rw h.0 (ap (λ t. (j, w) ∷ t) (insert-of_Fresh k v m h.1))
