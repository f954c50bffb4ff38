-- ===== src/Server/SelfService/Gather/Moves.antt =====
-- What each move of a goroutine does to what is counted, and what it says of the errors.
use alice_tss.Base.{
  ℕ, ◌+◌, ◌<◌, ◌≡◌, refl, Bool, true, false, Option, some, List, [], ◌∷◌, ◌⊎◌, Error, arith,
}
use alice_tss.Steps.{sum_of, OneMoves-lt}
use alice_tss.Server.SelfService.Gather.{
  Worker, calling, failed, leaving, gone, Shared, nothing, sends, leaves_group, Move, succeed, fail,
  report, leave, Primary, selecting, answered, Gathering, shared_by, Step, work, close_done,
  take_done, take_error, take_context,
}

-- The error is the outcome of one of the calls.
abbrev pub Among : Error → List (Option Error) → Type 0
Among e [] = ⊥
Among e (o ∷ os) = (o ≡ some e) ⊎ Among e os

-- Whether a goroutine is still in the wait group, and whether it may still send.
abbrev pub in_group : Worker → ℕ
in_group gone = 0
in_group _ = 1

abbrev pub may_send : Worker → ℕ
may_send (calling (some e)) = 1
may_send (failed _) = 1
may_send _ = 0

abbrev pub sending : Shared → ℕ
sending (sends e) = 1
sending _ = 0

abbrev pub departing : Shared → ℕ
departing leaves_group = 1
departing _ = 0

pub Move-in_group :
    (g : Worker) (x : Shared) (g' : Worker) → Move g x g' → in_group g' + departing x ≡ in_group g
Move-in_group g x g' succeed = refl
Move-in_group g x g' fail = refl
Move-in_group g x g' report = refl
Move-in_group g x g' leave = refl

pub Move-may_send :
    (g : Worker) (x : Shared) (g' : Worker) → Move g x g' → may_send g' + sending x ≡ may_send g
Move-may_send g x g' succeed = refl
Move-may_send g x g' fail = refl
Move-may_send g x g' report = refl
Move-may_send g x g' leave = refl

-- The steps that a goroutine has left.
abbrev pub rank : Worker → ℕ
rank (calling _) = 3
rank (failed _) = 2
rank leaving = 1
rank gone = 0

pub Move-rank : (g : Worker) (x : Shared) (g' : Worker) → Move g x g' → rank g' < rank g
Move-rank g x g' succeed = omega arith
Move-rank g x g' fail = omega arith
Move-rank g x g' report = omega arith
Move-rank g x g' leave = omega arith

abbrev has_closed : Bool → ℕ
has_closed true = 0
has_closed false = 1

abbrev has_answered : Primary → ℕ
has_answered selecting = 1
has_answered (answered _) = 0

abbrev pub measure : Gathering → ℕ
measure s = sum_of rank s.workers + has_closed s.done_closed + has_answered s.primary

module _ (cap : ℕ) (ctx : Option Error) where
  pub shared_by-rest :
      (x : Shared) (ws : List Worker) (s : Gathering)
      → ((shared_by cap x ws s).workers ≡ ws)
        × ((shared_by cap x ws s).done_closed ≡ s.done_closed)
        × ((shared_by cap x ws s).primary ≡ s.primary)
  shared_by-rest nothing ws s = (refl, refl, refl)
  shared_by-rest (sends e) ws s = (refl, refl, refl)
  shared_by-rest leaves_group ws s = (refl, refl, refl)

  pub Step-measure : (s t : Gathering) → Step cap ctx s t → measure t < measure s
  Step-measure s t (work {x} {ws} p) =
      let (a, b, c) = shared_by-rest x ws s in
      rw (a, b, c) (omega (arith, OneMoves-lt rank Move-rank p))
  Step-measure s t (close_done z o) = rw o (omega arith)
  Step-measure s t (take_done p d) = rw p (omega arith)
  Step-measure s t (take_error e rest p q) = rw p (omega arith)
  Step-measure s t (take_context e p q) = rw p (omega arith)

module _ (outcomes : List (Option Error)) where
  -- A goroutine, a channel send that carries nothing but an outcome of the calls.
  abbrev pub Honest : Worker → Type 0
  Honest (calling (some e)) = Among e outcomes
  Honest (failed e) = Among e outcomes
  Honest _ = Unit

  abbrev pub HonestSend : Shared → Type 0
  HonestSend (sends e) = Among e outcomes
  HonestSend _ = Unit

  pub Move-Honest : (g : Worker) (x : Shared) (g' : Worker) → Move g x g' → Honest g → Honest g'
  Move-Honest g x g' succeed h = tt
  Move-Honest g x g' fail h = h
  Move-Honest g x g' report h = tt
  Move-Honest g x g' leave h = tt

  pub Move-HonestSend :
      (g : Worker) (x : Shared) (g' : Worker) → Move g x g' → Honest g → HonestSend x
  Move-HonestSend g x g' succeed h = tt
  Move-HonestSend g x g' fail h = tt
  Move-HonestSend g x g' report h = h
  Move-HonestSend g x g' leave h = tt
