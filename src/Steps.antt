-- ===== src/Steps.antt =====
-- Goroutines that are interleaved in any order. Each is a value; a step moves one of them, with a label
-- that says what the move does to what they share.
use alice_tss.Base.{
  ℕ, zero, suc, ◌+◌, ◌<◌, ◌≡◌, refl, ap, ◌⊎◌, inl, inr, List, [], ◌∷◌, map, arith, All,
}

module _ {G L : Type 0} where
  -- One goroutine of the list moves.
  pub data OneMoves (Move : G → L → G → Type 0) : List G → L → List G → Type 0 where
    here : {g g' : G} {x : L} {r : List G} → Move g x g' → OneMoves Move (g ∷ r) x (g' ∷ r)
    there :
        {g : G} {x : L} {r r' : List G} → OneMoves Move r x r' → OneMoves Move (g ∷ r) x (g ∷ r')

module _ {G : Type 0} where
  -- The sum of a weight.
  abbrev pub sum_of : (G → ℕ) → List G → ℕ
  sum_of w [] = 0
  sum_of w (g ∷ r) = w g + sum_of w r

module _ {G L : Type 0} {Move : G → L → G → Type 0} where
  -- A weight that each move lowers by what its label says goes down by that in the sum.
  pub OneMoves-sum :
      (w : G → ℕ) (d : L → ℕ) {r r' : List G} {x : L}
      → ((g : G) (y : L) (g' : G) → Move g y g' → w g' + d y ≡ w g)
      → OneMoves Move r x r'
      → sum_of w r' + d x ≡ sum_of w r
  OneMoves-sum w d h (here {g} {g'} {x} m) = omega (arith, h g x g' m)
  OneMoves-sum w d h (there p) = omega (arith, OneMoves-sum w d h p)

  -- A weight that each move of a goroutine of which something holds lowers goes down in the sum.
  pub OneMoves-lt_All :
      (w : G → ℕ) (P : G → Type 0) {r r' : List G} {x : L}
      → ((g : G) (y : L) (g' : G) → Move g y g' → P g → w g' < w g)
      → OneMoves Move r x r'
      → All P r
      → sum_of w r' < sum_of w r
  OneMoves-lt_All w P h (here {g} {g'} {x} m) a = omega (arith, h g x g' m a.0)
  OneMoves-lt_All w P h (there p) a = omega (arith, OneMoves-lt_All w P h p a.1)

  -- A weight that each move lowers goes down in the sum.
  pub OneMoves-lt :
      (w : G → ℕ) {r r' : List G} {x : L}
      → ((g : G) (y : L) (g' : G) → Move g y g' → w g' < w g)
      → OneMoves Move r x r'
      → sum_of w r' < sum_of w r
  OneMoves-lt w h (here {g} {g'} {x} m) = omega (arith, h g x g' m)
  OneMoves-lt w h (there p) = omega (arith, OneMoves-lt w h p)

  -- What each move keeps of its goroutine holds of all still.
  pub OneMoves-All :
      (P : G → Type 0) {r r' : List G} {x : L}
      → ((g : G) (y : L) (g' : G) → Move g y g' → P g → P g')
      → OneMoves Move r x r'
      → All P r
      → All P r'
  OneMoves-All P h (here {g} {g'} {x} m) a = (h g x g' m a.0, a.1)
  OneMoves-All P h (there p) a = (a.0, OneMoves-All P h p a.1)

  -- What each move keeps of its goroutine stays in the list.
  pub OneMoves-map :
      {B : Type 0} (f : G → B) {r r' : List G} {x : L}
      → ((g : G) (y : L) (g' : G) → Move g y g' → f g' ≡ f g)
      → OneMoves Move r x r'
      → map f r' ≡ map f r
  OneMoves-map f h (here {g} {g'} {x} m) = rw (h g x g' m) refl
  OneMoves-map f h (there {g} p) = ap (λ t. f g ∷ t) (OneMoves-map f h p)

  -- What a goroutine says of the label it moves with, when it holds of all.
  pub OneMoves-label :
      (P : G → Type 0) (Q : L → Type 0) {r r' : List G} {x : L}
      → ((g : G) (y : L) (g' : G) → Move g y g' → P g → Q y)
      → OneMoves Move r x r'
      → All P r
      → Q x
  OneMoves-label P Q h (here {g} {g'} {x} m) a = h g x g' m a.0
  OneMoves-label P Q h (there p) a = OneMoves-label P Q h p a.1

  -- Either every goroutine has weight 0 or one of them can move.
  pub one_moves :
      (w : G → ℕ) (r : List G)
      → ((g : G) → (w g ≡ 0) ⊎ ((x : L) × (g' : G) × Move g x g'))
      → (sum_of w r ≡ 0) ⊎ ((x : L) × (r' : List G) × OneMoves Move r x r')
  one_moves w [] h = inl refl
  one_moves w (g ∷ r) h = elim (h g) [
    | inr (x, g', m) ↦ inr (x, g' ∷ r, here m)
    | inl zero_here ↦ elim (one_moves w r h) [
      | inr (x, r', p) ↦ inr (x, g ∷ r', there p)
      | inl rest ↦ inl (omega arith)
    ]
  ]

  -- The same where the moves rest on something that holds of all goroutines.
  pub one_moves_All :
      (w : G → ℕ) (P : G → Type 0) (r : List G)
      → ((g : G) → P g → (w g ≡ 0) ⊎ ((x : L) × (g' : G) × Move g x g'))
      → All P r
      → (sum_of w r ≡ 0) ⊎ ((x : L) × (r' : List G) × OneMoves Move r x r')
  one_moves_All w P [] h a = inl refl
  one_moves_All w P (g ∷ r) h a = elim (h g a.0) [
    | inr (x, g', m) ↦ inr (x, g' ∷ r, here m)
    | inl zero_here ↦ elim (one_moves_All w P r h a.1) [
      | inr (x, r', p) ↦ inr (x, g ∷ r', there p)
      | inl rest ↦ inl (omega arith)
    ]
  ]

module _ {S : Type 0} (Step : S → S → Type 0) where
  -- The states that come after some steps.
  pub data Reach (s : S) : S → Type 0 where
    start : Reach s s
    after : {t u : S} → Reach s t → Step t u → Reach s u

  -- Whatever steps are taken, a state with the property is reached, and until then there is a step.
  pub data Inevitable (P : S → Type 0) : S → Type 0 where
    now : {s : S} → P s → Inevitable P s
    later : {s : S} (t : S) → Step s t → ((u : S) → Step s u → Inevitable P u) → Inevitable P s

module _ {S : Type 0} {Step : S → S → Type 0} where
  -- What every step keeps holds of what is reached.
  pub Reach-lem :
      (Inv : S → Type 0) {s t : S}
      → ((u v : S) → Step u v → Inv u → Inv v)
      → Reach Step s t
      → Inv s
      → Inv t
  Reach-lem Inv h start i = i
  Reach-lem Inv h (after {t} {u} r st) i = h t u st (Reach-lem Inv h r i)

  -- Steps that keep an invariant and lower a measure, one of which is there until the property holds,
  -- make it inevitable.
  pub Inevitable-lem :
      (Inv P : S → Type 0) (measure : S → ℕ)
      → ((u v : S) → Step u v → Inv u → Inv v)
      → ((u v : S) → Step u v → Inv u → measure v < measure u)
      → ((u : S) → Inv u → P u ⊎ ((v : S) × Step u v))
      → (fuel : ℕ) (s : S) → measure s < fuel
      → Inv s
      → Inevitable Step P s
  Inevitable-lem Inv P measure keeps lowers moves (suc fuel) s lt i = elim (moves s i) [
    | inl p ↦ now p
    | inr (t, st) ↦ later t st (λ u su.
        Inevitable-lem Inv P measure keeps lowers moves fuel u (omega (arith, lowers s u su i))
          (keeps s u su i))
  ]
  Inevitable-lem Inv P measure keeps lowers moves zero s lt i = absurd (omega arith)
