-- ===== src/Peer/Connecting/Laws.antt =====
-- `EnsureAllConnected` returns when every peer is connected, and not before.
use alice_tss.Base.{
  ℕ, ◌+◌, ◌≡◌, refl, sym, ◌∙◌, ap, true, Option, List, [], ◌∷◌, map, Text, ok, Error, All, arith,
  subst,
}
use alice_tss.Peer.Manager.{Heap, P2pManager, peers_of}
use alice_tss.Peer.Transport.{Net, AddrInfo}
use alice_tss.Steps.{sum_of, OneMoves-sum, OneMoves-All, OneMoves-map, Reach, Reach-lem}
use alice_tss.Peer.Connecting.{
  Phase, attempting, leaving, gone, Dialer, Effect, nothing, leaves_group, tried, Dial, retries,
  connects, leave, Connecting, counted_down, Step, work, wait_over, addresses, dialers_of, count,
  ensure_all_connected,
}

abbrev pub held : Phase → ℕ
held gone = 0
held _ = 1

abbrev pub waiting_for : Dialer → ℕ
waiting_for d = held d.phase

abbrev departs : Effect → ℕ
departs nothing = 0
departs leaves_group = 1

module _ (n : Net) (dial : Text → ℕ → AddrInfo → Option Error) where
  -- Some attempt at the target connects.
  abbrev pub Connects : Text → Type 0
  Connects t = (i : ℕ) × (tried n dial t i ≡ ok tt)

  Dial-waiting_for :
      (d : Dialer) (x : Effect) (d' : Dialer)
      → Dial n dial d x d'
      → waiting_for d' + departs x ≡ waiting_for d
  Dial-waiting_for d x d' (retries e q) = refl
  Dial-waiting_for d x d' (connects q) = refl
  Dial-waiting_for d x d' leave = refl

  Dial-target : (d : Dialer) (x : Effect) (d' : Dialer) → Dial n dial d x d' → d'.target ≡ d.target
  Dial-target d x d' (retries e q) = refl
  Dial-target d x d' (connects q) = refl
  Dial-target d x d' leave = refl

  -- A goroutine that is past its attempts has connected.
  abbrev Past : Text → Phase → Type 0
  Past t (attempting i) = Unit
  Past t _ = Connects t

  abbrev Truthful : Dialer → Type 0
  Truthful d = Past d.target d.phase

  Dial-Truthful :
      (d : Dialer) (x : Effect) (d' : Dialer) → Dial n dial d x d' → Truthful d → Truthful d'
  Dial-Truthful d x d' (retries e q) h = tt
  Dial-Truthful d x d' (connects {t} {i} q) h = (i, q)
  Dial-Truthful d x d' leave h = h

  -- What holds on every schedule of the goroutines for a list of addresses.
  pub record Inv (targets : List Text) (s : Connecting) : Type 0 where
    -- the wait group counts the goroutines that have not left it
    pub counted : s.left ≡ sum_of waiting_for s.dialers
    -- each goroutine has its own address
    pub theirs : map (λ d. d.target) s.dialers ≡ targets
    -- a goroutine that has left its loop has connected
    pub truthful : All Truthful s.dialers
    pub returns_last : s.returned ≡ true → s.left ≡ 0

  counted_down_lem :
      (x : Effect) (k new old : ℕ) → k ≡ old → new + departs x ≡ old → counted_down x k ≡ new
  counted_down_lem nothing k new old e f = omega arith
  counted_down_lem leaves_group k new old e f = omega arith

  stays_zero : (x : Effect) (k : ℕ) → k ≡ 0 → counted_down x k ≡ 0
  stays_zero nothing k h = h
  stays_zero leaves_group k h = omega arith

  pub Step-Inv :
      (targets : List Text) (s t : Connecting) → Step n dial s t → Inv targets s → Inv targets t
  Step-Inv targets s t (work {x} {ds} p) i = record {
    counted =
        counted_down_lem x s.left (sum_of waiting_for ds) (sum_of waiting_for s.dialers) i.counted
          (OneMoves-sum waiting_for departs Dial-waiting_for p);
    theirs = OneMoves-map (λ d. d.target) Dial-target p ∙ i.theirs;
    truthful = OneMoves-All Truthful Dial-Truthful p i.truthful;
    returns_last = λ r. stays_zero x s.left (i.returns_last r);
  }
  Step-Inv targets s t (wait_over o z) i = record {
    counted = i.counted;
    theirs = i.theirs;
    truthful = i.truthful;
    returns_last = λ r. z;
  }

count_lem : (ts : List Text) → count (dialers_of ts) ≡ sum_of waiting_for (dialers_of ts)
count_lem [] = refl
count_lem (t ∷ ts) = omega (arith, count_lem ts)

targets_lem : (ts : List Text) → map (λ d. d.target) (dialers_of ts) ≡ ts
targets_lem [] = refl
targets_lem (t ∷ ts) = ap (λ r. t ∷ r) (targets_lem ts)

module _ (n : Net) (dial : Text → ℕ → AddrInfo → Option Error) where
  start-Truthful : (ts : List Text) → All (Truthful n dial) (dialers_of ts)
  start-Truthful [] = tt
  start-Truthful (t ∷ ts) = (tt, start-Truthful ts)

  over-Connects :
      (ds : List Dialer)
      → All (Truthful n dial) ds
      → sum_of waiting_for ds ≡ 0
      → All (Connects n dial) (map (λ d. d.target) ds)
  over-Connects [] a z = tt
  over-Connects (d ∷ ds) a z =
      (over_one d.phase d.target a.0 (omega arith), over-Connects ds a.1 (omega arith))
    where
      over_one : (p : Phase) (t : Text) → Past n dial t p → held p ≡ 0 → Connects n dial t
      over_one (attempting i) t h z = absurd (omega arith)
      over_one leaving t h z = absurd (omega arith)
      over_one gone t h z = h

  module _ (h : Heap) (pm : P2pManager) where
    -- The peers of a manager, by their addresses.
    abbrev pub targets : List Text
    targets = addresses (peers_of h pm)

    abbrev pub Dials : Connecting → Type 0
    Dials s = Reach (Step n dial) (ensure_all_connected h pm) s

    pub start-Inv : Inv n dial targets (ensure_all_connected h pm)
    unfolding ensure_all_connected
    start-Inv = record {
      counted = count_lem targets;
      theirs = targets_lem targets;
      truthful = start-Truthful targets;
      returns_last = λ r. cc;
    }

    pub Dials-Inv : {s : Connecting} → Dials s → Inv n dial targets s
    Dials-Inv r = Reach-lem (Inv n dial targets) (Step-Inv n dial targets) r start-Inv

    -- However the goroutines are interleaved: once `EnsureAllConnected` has returned, for each of the
    -- manager's peers some attempt at its address has connected. So a peer that no attempt reaches keeps it
    -- waiting for good.
    pub ensure_all_connected_waits :
        {s : Connecting} → Dials s → s.returned ≡ true → All (Connects n dial) targets
    ensure_all_connected_waits {s} r q =
        let i = Dials-Inv r in
        subst (λ ts. All (Connects n dial) ts) i.theirs
          (over-Connects s.dialers i.truthful (sym i.counted ∙ i.returns_last q))
