-- ===== src/Server/SelfService/Gather/Schedules.antt =====
-- Schedules of the wait that are there.
use alice_tss.Base.{
  ℕ, zero, suc, ◌<◌, ◌≡◌, refl, ◌∙◌, Option, List, inl, inr, length, ok, Error, arith,
}
use alice_tss.Steps.{sum_of, OneMoves-lt, one_moves, start, after}
use alice_tss.Server.SelfService.Gather.{
  answered, Gathering, shared_by, work, close_done, take_done, callers, gathering,
}
use alice_tss.Server.SelfService.Gather.Moves.{in_group, rank, Move-rank, shared_by-rest}
use alice_tss.Server.SelfService.Gather.Laws.{worker_moves}
use alice_tss.Server.SelfService.Gather.Invariant.{Gathers, gather-Inv}

module _ (outcomes : List (Option Error)) (ctx : Option Error) where
  -- What the goroutines come to when nothing else moves.
  record Settled (s : Gathering) : Type 0 where
    settled : Gathering
    reach : Gathers outcomes ctx settled
    over : sum_of in_group settled.workers ≡ 0
    same_primary : settled.primary ≡ s.primary
    same_done : settled.done_closed ≡ s.done_closed

  settle :
      (fuel : ℕ) (s : Gathering) → sum_of rank s.workers < fuel → Gathers outcomes ctx s → Settled s
  settle zero s lt r = absurd (omega arith)
  settle (suc fuel) s lt r = elim (one_moves in_group s.workers (worker_moves outcomes ctx)) [
    | inl z ↦ record { settled = s; reach = r; over = z; same_primary = refl; same_done = refl }
    | inr (x, ws, p) ↦
        let (a, b, c) = shared_by-rest (length outcomes) ctx x ws s in
        let t =
          settle fuel (shared_by (length outcomes) x ws s)
            (rw a (omega (arith, OneMoves-lt rank Move-rank p))) (after r (work p)) in
        record {
          settled = t.settled;
          reach = t.reach;
          over = t.over;
          same_primary = t.same_primary ∙ c;
          same_done = t.same_done ∙ b;
        }
  ]

  -- Whatever the calls of the other nodes return, errors all of them even, there is a schedule on which the
  -- select of the first node takes `done` and returns nil.
  pub gather_may_pass : (s : Gathering) × Gathers outcomes ctx s × (s.primary ≡ answered (ok tt))
  unfolding gathering
  gather_may_pass =
      let t =
        settle (suc (sum_of rank (callers outcomes))) (gathering outcomes) (omega arith) start in
      let z : t.settled.left ≡ 0 =
        omega (arith, (gather-Inv outcomes ctx t.reach).counted, t.over) in
      (_, after (after t.reach (close_done z t.same_done)) (take_done t.same_primary refl), refl)
