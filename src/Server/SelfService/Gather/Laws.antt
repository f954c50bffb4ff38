-- ===== src/Server/SelfService/Gather/Laws.antt =====
-- What holds of the wait for the other nodes on every schedule.
use alice_tss.Base.{
  suc, ◌<◌, ◌≡◌, refl, Option, none, some, List, [], ◌∷◌, ◌⊎◌, inl, inr, length, Done, ok, err,
  Error, All, arith, Bool-cases,
}
use alice_tss.Steps.{OneMoves, sum_of, OneMoves-sum, one_moves, Inevitable, Inevitable-lem}
use alice_tss.Server.SelfService.Gather.{
  Worker, calling, failed, leaving, gone, Shared, nothing, sends, leaves_group, Move, succeed, fail,
  report, leave, Primary, selecting, answered, Gathering, Step, work, close_done, take_done,
}
use alice_tss.Server.SelfService.Gather.Moves.{
  Among, in_group, may_send, sending, Move-may_send, measure, Step-measure,
}
use alice_tss.Server.SelfService.Gather.Invariant.{Inv, Step-Inv, Gathers, gather-Inv}

gone_of_zero : (ws : List Worker) → sum_of in_group ws ≡ 0 → All (λ g. g ≡ gone) ws
gone_of_zero [] h = tt
gone_of_zero (calling o ∷ ws) h = absurd (omega arith)
gone_of_zero (failed e ∷ ws) h = absurd (omega arith)
gone_of_zero (leaving ∷ ws) h = absurd (omega arith)
gone_of_zero (gone ∷ ws) h = (refl, gone_of_zero ws (omega arith))

module _ (outcomes : List (Option Error)) (ctx : Option Error) where
  -- On every schedule: once the first node goes on without an error, each of the other nodes has returned
  -- from its call, and its goroutine has ended.
  pub gather_waits :
      {s : Gathering}
      → Gathers outcomes ctx s
      → s.primary ≡ answered (ok tt)
      → All (λ g. g ≡ gone) s.workers
  gather_waits {s} r q =
      let i = gather-Inv outcomes ctx r in
      let z = i.closed_last (i.answered_last q) in gone_of_zero s.workers (omega (arith, i.counted))

  -- On every schedule, an error that one of the other nodes is about to report finds room in the channel:
  -- the `default` of its select is never taken, and no error is dropped.
  pub gather_reports :
      {s : Gathering} {e : Error} {ws : List Worker}
      → Gathers outcomes ctx s
      → OneMoves Move s.workers (sends e) ws
      → length s.errors < length outcomes
  gather_reports r p =
      omega (arith, (gather-Inv outcomes ctx r).room, OneMoves-sum may_send sending Move-may_send p)

  -- On every schedule, what the select returns is nil, the error of one of the calls or that of the context.
  pub gather_answers :
      {s : Gathering} {d : Done}
      → Gathers outcomes ctx s
      → s.primary ≡ answered d
      → (d ≡ ok tt) ⊎ ((e : Error) × (d ≡ err e) × (Among e outcomes ⊎ (ctx ≡ some e)))
  gather_answers {d} r q = (gather-Inv outcomes ctx r).answer_from d q

  abbrev pub Answered : Gathering → Type 0
  Answered s = (d : Done) × (s.primary ≡ answered d)

  pub worker_moves : (g : Worker) → (in_group g ≡ 0) ⊎ ((x : Shared) × (g' : Worker) × Move g x g')
  worker_moves (calling none) = inr (nothing, leaving, succeed)
  worker_moves (calling (some e)) = inr (nothing, failed e, fail)
  worker_moves (failed e) = inr (sends e, leaving, report)
  worker_moves leaving = inr (leaves_group, gone, leave)
  worker_moves gone = inl refl

  select_moves :
      (s : Gathering) (p : Primary)
      → s.primary ≡ p
      → s.left ≡ 0
      → Answered s ⊎ ((t : Gathering) × Step (length outcomes) ctx s t)
  select_moves s (answered d) q z = inl (d, q)
  select_moves s selecting q z = elim (Bool-cases s.done_closed) [
    | inl c ↦ inr (_, take_done q c)
    | inr o ↦ inr (_, close_done z o)
  ]

  progress :
      (s : Gathering)
      → Inv outcomes (length outcomes) ctx s
      → Answered s ⊎ ((t : Gathering) × Step (length outcomes) ctx s t)
  progress s i = elim (one_moves in_group s.workers worker_moves) [
    | inl z ↦ select_moves s s.primary refl (omega (arith, i.counted))
    | inr (x, ws, p) ↦ inr (_, work p)
  ]

  -- From whatever state the wait has come to, on every schedule, and without any help of the context, the
  -- select is answered.
  pub gather_ends :
      {s : Gathering} → Gathers outcomes ctx s → Inevitable (Step (length outcomes) ctx) Answered s
  gather_ends {s} r =
      Inevitable-lem (Inv outcomes (length outcomes) ctx) Answered measure
        (Step-Inv outcomes (length outcomes) ctx)
        (λ u v st _. Step-measure (length outcomes) ctx u v st) progress (suc (measure s)) s
        (omega arith) (gather-Inv outcomes ctx r)
