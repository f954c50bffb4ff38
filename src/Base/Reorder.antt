-- ===== src/Base/Reorder.antt =====
-- Lists that hold the same things in another order, and maps that do.
use Prim.Native.Nat.{suc}
use mathlib.Core.Path.{◌≡◌, refl, ap, ◌∙◌, subst}
use mathlib.Core.Bool.{Bool, true, false, ◌&&◌}
use mathlib.Core.List.{List, [], ◌∷◌, Permᴰ}
use native.Mathlib.Omega.{arith}
use alice_tss.Base.Lists.{Text, length, text_eq, text_eq_iff}
use alice_tss.Base.Maps.{Dict, lookup, Fresh, IsMap}

and_swap : (x y z : Bool) → (x && (y && z)) ≡ (y && (x && z))
and_swap x y z = ground arith

text_ne_sym : (i j : Text) → text_eq i j ≡ false → text_eq j i ≡ false
text_ne_sym i j h = ground (arith, text_eq_iff i j, text_eq_iff j i)

module _ {A : Type 0} where
  pub length-perm : {xs ys : List A} → Permᴰ xs ys → length xs ≡ length ys
  length-perm Permᴰ.nil = refl
  length-perm (Permᴰ.cons _ p) = ap suc (length-perm p)
  length-perm (Permᴰ.swap _ _) = refl
  length-perm (Permᴰ.trans p q) = length-perm p ∙ length-perm q

  -- Every element passes the test.
  abbrev pub all_of : (A → Bool) → List A → Bool
  all_of test [] = true
  all_of test (x ∷ xs) = test x && all_of test xs

  pub all_of-perm :
      (test : A → Bool) {xs ys : List A} → Permᴰ xs ys → all_of test xs ≡ all_of test ys
  all_of-perm test Permᴰ.nil = refl
  all_of-perm test (Permᴰ.cons {a} {b} {l₁} {l₂} e p) = rw (e, all_of-perm test p) refl
  all_of-perm test (Permᴰ.swap {a} {b} {a'} {b'} {l} e f) =
      rw (← e, ← f) (and_swap (test a) (test b) (all_of test l))
  all_of-perm test (Permᴰ.trans p q) = all_of-perm test p ∙ all_of-perm test q

module _ {V : Type 0} where
  pub Fresh-perm : (k : Text) {m m' : Dict V} → Permᴰ m m' → Fresh k m → Fresh k m'
  Fresh-perm k Permᴰ.nil h = h
  Fresh-perm k (Permᴰ.cons e p) h = (rw e at h.0, Fresh-perm k p h.1)
  Fresh-perm k (Permᴰ.swap e f) h = (rw f at h.1.0, (rw e at h.0, h.1.1))
  Fresh-perm k (Permᴰ.trans p q) h = Fresh-perm k q (Fresh-perm k p h)

  IsMap-swap : (a b : Text × V) (m : Dict V) → IsMap (a ∷ b ∷ m) → IsMap (b ∷ a ∷ m)
  IsMap-swap (i, v) (j, w) m h = ((text_ne_sym j i h.0.0, h.1.0), (h.0.1, h.1.1))

  pub IsMap-perm : {m m' : Dict V} → Permᴰ m m' → IsMap m → IsMap m'
  IsMap-perm Permᴰ.nil h = h
  IsMap-perm (Permᴰ.cons {a} {b} {l₁} {l₂} e p) h =
      subst (λ x. IsMap (x ∷ l₂)) e (Fresh-perm a.0 p h.0, IsMap-perm p h.1)
  IsMap-perm (Permᴰ.swap {a} {b} {a'} {b'} {l} e f) h =
      subst (λ x. IsMap (x ∷ b' ∷ l)) f (subst (λ y. IsMap (b ∷ y ∷ l)) e (IsMap-swap a b l h))
  IsMap-perm (Permᴰ.trans p q) h = IsMap-perm q (IsMap-perm p h)

  lookup-swap :
      (k : Text) (a b : Text × V) (m : Dict V)
      → text_eq b.0 a.0 ≡ false
      → lookup k (a ∷ b ∷ m) ≡ lookup k (b ∷ a ∷ m)
  lookup-swap k (i, v) (j, w) m ne =
      ground (arith, text_eq_iff i k, text_eq_iff j k, text_eq_iff j i)

  lookup-cons :
      (k : Text) (a : Text × V) (m m' : Dict V)
      → lookup k m ≡ lookup k m'
      → lookup k (a ∷ m) ≡ lookup k (a ∷ m')
  lookup-cons k (i, v) m m' e = rw e refl

  -- A lookup in a map does not depend on the order.
  pub lookup-perm : (k : Text) {m m' : Dict V} → Permᴰ m m' → IsMap m → lookup k m ≡ lookup k m'
  lookup-perm k Permᴰ.nil h = refl
  lookup-perm k (Permᴰ.cons {a} {b} {l₁} {l₂} e p) h =
      rw (← e) (lookup-cons k a l₁ l₂ (lookup-perm k p h.1))
  lookup-perm k (Permᴰ.swap {a} {b} {a'} {b'} {l} e f) h = rw (← e, ← f) (lookup-swap k a b l h.0.0)
  lookup-perm k (Permᴰ.trans p q) h = lookup-perm k p h ∙ lookup-perm k q (IsMap-perm p h)
