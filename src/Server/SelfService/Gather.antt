-- ===== src/Server/SelfService/Gather.antt =====
-- server/self_service.go: how the first node waits for the others. `RegisterDKG` and `SignMessage` start a
-- goroutine for each of the others, which makes its call, reports an error into a channel and leaves the wait
-- group; the first node's `call2peer` then selects between `done`, the context and that channel.
pub mod Moves
pub mod Invariant
pub mod Laws
pub mod Schedules
use alice_tss.Base.{
  ℕ, ◌+◌, ◌-◌, ◌<◌, ◌≡◌, Bool, true, false, Option, none, some, List, [], ◌∷◌, ◌++◌, length, ltb,
  Done, ok, err, Error, if◌then◌else◌,
}
use alice_tss.Steps.{OneMoves}

-- Where the goroutine of one of the other nodes stands: in its call, which will end with an error or not;
-- before the send of its error; before the deferred `wg.Done()`; at its end.
pub data Worker : Type 0 where
  calling : Option Error → Worker
  failed : Error → Worker
  leaving : Worker
  gone : Worker

-- What a move does to what the goroutines share.
pub data Shared : Type 0 where
  nothing : Shared
  sends : Error → Shared
  leaves_group : Shared

pub data Move : Worker → Shared → Worker → Type 0 where
  succeed : Move (calling none) nothing leaving
  fail : {e : Error} → Move (calling (some e)) nothing (failed e)
  report : {e : Error} → Move (failed e) (sends e) leaving
  leave : Move leaving leaves_group gone

-- `call2peer` of the first node: in the select, or returned.
pub data Primary : Type 0 where
  selecting : Primary
  answered : Done → Primary

-- The goroutines, the channel `errChan`, the counter of the wait group, whether `done` is closed, and the
-- first node.
pub record Gathering : Type 0 where
  pub workers : List Worker
  pub errors : List Error
  pub left : ℕ
  pub done_closed : Bool
  pub primary : Primary

-- `select { case errChan <- err: default: }` on a channel with room for `cap` errors, and `wg.Done()`.
abbrev pub shared_by : ℕ → Shared → List Worker → Gathering → Gathering
shared_by cap nothing ws s = record s { workers = ws }
shared_by cap (sends e) ws s = record s {
  workers = ws;
  errors = if ltb (length s.errors) cap then s.errors ++ e ∷ [] else s.errors;
}
shared_by cap leaves_group ws s = record s { workers = ws; left = s.left - 1 }

-- One step, over the room in the channel and what `ctx.Err()` gives, if the context ends. A select takes
-- any of the cases that are ready.
pub data Step (cap : ℕ) (ctx : Option Error) (s : Gathering) : Gathering → Type 0 where
  work :
      {x : Shared} {ws : List Worker}
      → OneMoves Move s.workers x ws
      → Step cap ctx s (shared_by cap x ws s)
  close_done : s.left ≡ 0 → s.done_closed ≡ false → Step cap ctx s (record s { done_closed = true })
  take_done :
      s.primary ≡ selecting
      → s.done_closed ≡ true
      → Step cap ctx s (record s { primary = answered (ok tt) })
  take_error :
      (e : Error) (rest : List Error)
      → s.primary ≡ selecting
      → s.errors ≡ e ∷ rest
      → Step cap ctx s (record s { errors = rest; primary = answered (err e) })
  take_context :
      (e : Error)
      → s.primary ≡ selecting
      → ctx ≡ some e
      → Step cap ctx s (record s { primary = answered (err e) })

abbrev pub callers : List (Option Error) → List Worker
callers [] = []
callers (o ∷ os) = calling o ∷ callers os

-- `wg.Add(1)` and `go` for each of the others, by what its call will return, with room for as many errors.
unfoldable pub gathering : List (Option Error) → Gathering
gathering outcomes = record {
  workers = callers outcomes;
  errors = [];
  left = length outcomes;
  done_closed = false;
  primary = selecting;
}
