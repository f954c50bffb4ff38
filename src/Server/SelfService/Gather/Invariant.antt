-- ===== src/Server/SelfService/Gather/Invariant.antt =====
-- The invariant of the wait for the other nodes, on every schedule.
use alice_tss.Base.{
  ℕ, ◌+◌, ◌≤◌, ◌≡◌, refl, ap, Bool, true, false, Option, none, some, List, [], ◌∷◌, ◌++◌, ◌⊎◌, inl,
  inr, length, length-append, Done, ok, err, Error, All, All-append, arith, if◌then◌else◌, ltb,
}
use alice_tss.Steps.{sum_of, OneMoves-sum, OneMoves-All, OneMoves-label, Reach, Reach-lem}
use alice_tss.Server.SelfService.Gather.{
  Worker, Shared, nothing, sends, leaves_group, answered, Gathering, shared_by, Step, work,
  close_done, take_done, take_error, take_context, callers, gathering,
}
use alice_tss.Server.SelfService.Gather.Moves.{
  Among, in_group, may_send, sending, departing, Move-in_group, Move-may_send, Honest, HonestSend,
  Move-Honest, Move-HonestSend,
}

module _ (outcomes : List (Option Error)) where
  module _ (cap : ℕ) (ctx : Option Error) where
    -- What holds on every schedule.
    pub record Inv (s : Gathering) : Type 0 where
      -- the wait group counts the goroutines that have not left it
      pub counted : s.left ≡ sum_of in_group s.workers
      -- every goroutine that may still send has room for its error
      pub room : length s.errors + sum_of may_send s.workers ≤ cap
      pub closed_last : s.done_closed ≡ true → s.left ≡ 0
      pub answered_last : s.primary ≡ answered (ok tt) → s.done_closed ≡ true
      pub honest : All (Honest outcomes) s.workers
      pub from_calls : All (λ e. Among e outcomes) s.errors
      pub answer_from :
          (r : Done)
          → s.primary ≡ answered r
          → (r ≡ ok tt) ⊎ ((e : Error) × (r ≡ err e) × (Among e outcomes ⊎ (ctx ≡ some e)))

    work-Inv :
        (x : Shared) (ws : List Worker) (s : Gathering)
        → sum_of in_group ws + departing x ≡ sum_of in_group s.workers
        → sum_of may_send ws + sending x ≡ sum_of may_send s.workers
        → All (Honest outcomes) ws
        → HonestSend outcomes x
        → Inv s
        → Inv (shared_by cap x ws s)
    work-Inv nothing ws s g m h c i = record {
      counted = omega (arith, i.counted);
      room = omega (arith, i.room);
      closed_last = i.closed_last;
      answered_last = i.answered_last;
      honest = h;
      from_calls = i.from_calls;
      answer_from = i.answer_from;
    }
    work-Inv (sends e) ws s g m h c i = record {
      counted = omega (arith, i.counted);
      room = ground (arith, i.room, length-append {0} s.errors (e ∷ []));
      closed_last = i.closed_last;
      answered_last = i.answered_last;
      honest = h;
      from_calls = sent (ltb (length s.errors) cap);
      answer_from = i.answer_from;
    }
      where
        sent : (b : Bool) → All (λ x. Among x outcomes) (if b then s.errors ++ e ∷ [] else s.errors)
        sent true = All-append (λ x. Among x outcomes) s.errors (e ∷ []) i.from_calls (c, tt)
        sent false = i.from_calls
    work-Inv leaves_group ws s g m h c i = record {
      counted = omega (arith, i.counted);
      room = omega (arith, i.room);
      closed_last = λ d. omega (arith, i.closed_last d);
      answered_last = i.answered_last;
      honest = h;
      from_calls = i.from_calls;
      answer_from = i.answer_from;
    }

    -- Every step keeps it.
    pub Step-Inv : (s t : Gathering) → Step cap ctx s t → Inv s → Inv t
    Step-Inv s t (work {x} {ws} p) i =
        work-Inv x ws s (OneMoves-sum in_group departing Move-in_group p)
          (OneMoves-sum may_send sending Move-may_send p)
          (OneMoves-All (Honest outcomes) (Move-Honest outcomes) p i.honest)
          (OneMoves-label (Honest outcomes) (HonestSend outcomes) (Move-HonestSend outcomes) p
            i.honest)
          i
    Step-Inv s t (close_done z o) i = record {
      counted = i.counted;
      room = i.room;
      closed_last = λ d. z;
      answered_last = λ a. refl;
      honest = i.honest;
      from_calls = i.from_calls;
      answer_from = i.answer_from;
    }
    Step-Inv s t (take_done p d) i = record {
      counted = i.counted;
      room = i.room;
      closed_last = i.closed_last;
      answered_last = λ a. d;
      honest = i.honest;
      from_calls = i.from_calls;
      answer_from = λ r q. inl cc;
    }
    Step-Inv s t (take_error e rest p q) i =
        let a = rw q at (i.from_calls) in
        record {
          counted = i.counted;
          room = omega (arith, i.room, ap length q);
          closed_last = i.closed_last;
          answered_last = λ a. cc;
          honest = i.honest;
          from_calls = a.1;
          answer_from = λ r w. inr (e, cc, inl a.0);
        }
    Step-Inv s t (take_context e p q) i = record {
      counted = i.counted;
      room = i.room;
      closed_last = i.closed_last;
      answered_last = λ a. cc;
      honest = i.honest;
      from_calls = i.from_calls;
      answer_from = λ r w. inr (e, cc, inr q);
    }

sum-callers : (os : List (Option Error)) → sum_of in_group (callers os) ≡ length os
sum-callers [] = refl
sum-callers (o ∷ os) = omega (arith, sum-callers os)

room-callers : (os : List (Option Error)) → sum_of may_send (callers os) ≤ length os
room-callers [] = omega arith
room-callers (none ∷ os) = omega (arith, room-callers os)
room-callers (some e ∷ os) = omega (arith, room-callers os)

callers-Honest :
    (outcomes os : List (Option Error))
    → ((e : Error) → Among e os → Among e outcomes)
    → All (Honest outcomes) (callers os)
callers-Honest outcomes [] h = tt
callers-Honest outcomes (none ∷ os) h = (tt, callers-Honest outcomes os (λ e a. h e (inr a)))
callers-Honest outcomes (some e ∷ os) h =
    (h e (inl refl), callers-Honest outcomes os (λ x a. h x (inr a)))

module _ (outcomes : List (Option Error)) (ctx : Option Error) where
  gathering-Inv : Inv outcomes (length outcomes) ctx (gathering outcomes)
  unfolding gathering
  gathering-Inv = record {
    counted = rw (sum-callers outcomes);
    room = omega (arith, room-callers outcomes);
    closed_last = λ d. cc;
    answered_last = λ a. cc;
    honest = callers-Honest outcomes outcomes (λ e a. a);
    from_calls = tt;
    answer_from = λ r q. cc;
  }

  -- The schedules of the wait: whatever has happened so far.
  abbrev pub Gathers : Gathering → Type 0
  Gathers s = Reach (Step (length outcomes) ctx) (gathering outcomes) s

  pub gather-Inv : {s : Gathering} → Gathers s → Inv outcomes (length outcomes) ctx s
  gather-Inv r =
      Reach-lem (Inv outcomes (length outcomes) ctx) (Step-Inv outcomes (length outcomes) ctx) r
        gathering-Inv
