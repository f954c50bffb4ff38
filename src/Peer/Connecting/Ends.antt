-- ===== src/Peer/Connecting/Ends.antt =====
-- `EnsureAllConnected` comes to an end where every peer answers at some attempt.
use alice_tss.Base.{
  ℕ, suc, ◌+◌, ◌-◌, ◌≤◌, ◌<◌, ◌≡◌, ◌≢◌, refl, ◌∙◌, Bool, true, false, Option, List, [], ◌∷◌, ◌⊎◌,
  inl, inr, Text, Result, ok, err, panic, Panic, Error, All, arith, Bool-cases,
}
use alice_tss.Peer.Manager.{Heap, P2pManager}
use alice_tss.Peer.Transport.{Net, AddrInfo}
use alice_tss.Steps.{
  sum_of, OneMoves-lt_All, OneMoves-All, one_moves_All, Inevitable, Reach-lem, Inevitable-lem,
}
use alice_tss.Peer.Connecting.{
  Phase, attempting, leaving, gone, Dialer, Effect, nothing, leaves_group, tried, Dial, retries,
  connects, leave, Connecting, Step, work, wait_over, dialers_of, ensure_all_connected,
}
use alice_tss.Peer.Connecting.Laws.{waiting_for, held, Inv, Step-Inv, targets, Dials, start-Inv}

module _ (n : Net) (dial : Text → ℕ → AddrInfo → Option Error) (bound : Text → ℕ) where
  -- No attempt at the address panics, and the one with the number of the bound connects.
  abbrev pub Answers : Text → Type 0
  Answers t =
      (tried n dial t (bound t) ≡ ok tt) × ((i : ℕ) (x : Panic) → tried n dial t i ≢ panic x)

  abbrev InTime : Text → Phase → Type 0
  InTime t (attempting i) = i ≤ bound t
  InTime t _ = Unit

  abbrev Timely : Dialer → Type 0
  Timely d = Answers d.target × InTime d.target d.phase

  -- The steps that a goroutine has left at most.
  abbrev steps_left : Text → Phase → ℕ
  steps_left t (attempting i) = bound t - i + 2
  steps_left t leaving = 1
  steps_left t gone = 0

  abbrev effort : Dialer → ℕ
  effort d = steps_left d.target d.phase

  -- An attempt that fails is one before the bound.
  before_bound :
      (t : Text) (i : ℕ) (e : Error)
      → Answers t
      → i ≤ bound t
      → tried n dial t i ≡ err e
      → i < bound t
  before_bound t i e a le q = elim (cases (bound t) i le) [ inl lt ↦ lt | inr same ↦ cc ]
    where
      cases : (b j : ℕ) → j ≤ b → (j < b) ⊎ (j ≡ b)
      cases b j h = ground arith

  Dial-Timely : (d : Dialer) (x : Effect) (d' : Dialer) → Dial n dial d x d' → Timely d → Timely d'
  Dial-Timely d x d' (retries {t} {i} e q) (a, le) = (a, omega (arith, before_bound t i e a le q))
  Dial-Timely d x d' (connects q) (a, le) = (a, tt)
  Dial-Timely d x d' leave (a, le) = (a, tt)

  Dial-effort :
      (d : Dialer) (x : Effect) (d' : Dialer) → Dial n dial d x d' → Timely d → effort d' < effort d
  Dial-effort d x d' (retries {t} {i} e q) (a, le) = omega (arith, before_bound t i e a le q)
  Dial-effort d x d' (connects q) h = omega arith
  Dial-effort d x d' leave h = omega arith

  attempt_moves :
      (t : Text) (i : ℕ) (r : Result (Unit {0}))
      → Answers t
      → tried n dial t i ≡ r
      → (x : Effect) × (d : Dialer) × Dial n dial (record { target = t; phase = attempting i }) x d
  attempt_moves t i (ok _) a q = (nothing, _, connects q)
  attempt_moves t i (err e) a q = (nothing, _, retries e q)
  attempt_moves t i (panic x) a q = absurd (a.1 i x q)

  phase_moves :
      (t : Text) (p : Phase)
      → Answers t
      → (held p ≡ 0)
        ⊎ ((x : Effect) × (d : Dialer) × Dial n dial (record { target = t; phase = p }) x d)
  phase_moves t (attempting i) a = inr (attempt_moves t i (tried n dial t i) a refl)
  phase_moves t leaving a = inr (leaves_group, _, leave)
  phase_moves t gone a = inl refl

  start-Timely : (ts : List Text) → All Answers ts → All Timely (dialers_of ts)
  start-Timely [] a = tt
  start-Timely (t ∷ ts) a = ((a.0, omega arith), start-Timely ts a.1)

  abbrev pending : Bool → ℕ
  pending true = 0
  pending false = 1

  abbrev measure : Connecting → ℕ
  measure s = sum_of effort s.dialers + pending s.returned

  module _ (h : Heap) (pm : P2pManager) where
    abbrev Both : Connecting → Type 0
    Both s = Inv n dial (targets n dial h pm) s × All Timely s.dialers

    Step-Both : (s t : Connecting) → Step n dial s t → Both s → Both t
    Step-Both s t (work p) (i, a) =
        (Step-Inv n dial _ s _ (work p) i, OneMoves-All Timely Dial-Timely p a)
    Step-Both s t (wait_over o z) (i, a) = (Step-Inv n dial _ s _ (wait_over o z) i, a)

    Step-measure : (s t : Connecting) → Step n dial s t → Both s → measure t < measure s
    Step-measure s t (work p) (i, a) = omega (arith, OneMoves-lt_All effort Timely Dial-effort p a)
    Step-measure s t (wait_over o z) b = rw o (omega arith)

    abbrev pub Returned : Connecting → Type 0
    Returned s = s.returned ≡ true

    progress : (s : Connecting) → Both s → Returned s ⊎ ((t : Connecting) × Step n dial s t)
    progress s (i, a) = elim (Bool-cases s.returned) [
      | inl done ↦ inl done
      | inr o ↦
          elim (one_moves_All waiting_for Timely s.dialers (λ d t. phase_moves d.target d.phase t.0)
            a) [ inl z ↦ inr (_, wait_over o (i.counted ∙ z)) | inr (x, ds, p) ↦ inr (_, work p) ]
    ]

    start-Both : All Answers (targets n dial h pm) → Both (ensure_all_connected h pm)
    unfolding ensure_all_connected
    start-Both a = (start-Inv n dial h pm, start-Timely (targets n dial h pm) a)

    -- Where for each of the manager's peers some attempt connects, by any bound on their numbers, and none
    -- panics: from whatever state it has come to, on every schedule, `EnsureAllConnected` returns.
    pub ensure_all_connected_ends :
        {s : Connecting}
        → All Answers (targets n dial h pm)
        → Dials n dial h pm s
        → Inevitable (Step n dial) Returned s
    ensure_all_connected_ends {s} a r =
        Inevitable-lem Both Returned measure Step-Both Step-measure progress (suc (measure s)) s
          (omega arith) (Reach-lem Both Step-Both r (start-Both a))
