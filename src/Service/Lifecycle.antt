-- ===== src/Service/Lifecycle.antt =====
-- The life of a service over the messages that it takes in and the state changes that its protocol
-- reports: the channel `done` is closed by the first end, and a second end is a panic.
pub mod Services
pub mod Signers
pub mod Reshares
pub mod Dkgs
pub mod Dones
use alice_tss.Base.{
  ℕ, suc, ◌≤◌, ◌<◌, ◌≡◌, refl, true, false, Option, none, some, List, [], ◌∷◌, Text, Bytes, Result,
  ok, panic, ◌>>=◌, close_of_closed_channel, arith, if◌then◌else◌,
}
use alice_tss.Service.Node.{MainState, state_init, state_done, state_failed, Service, Node}

-- What happens to a running service: a stream is read, or its protocol calls `OnStateChanged`.
pub data Event : Type 0 where
  received : Option Bytes → Event
  changed : MainState → Event

abbrev pub IsEnd : MainState → Type 0
IsEnd state_init = ⊥
IsEnd state_done = Unit
IsEnd state_failed = Unit

-- How many of the reported states are an end.
abbrev pub ends : List Event → ℕ
ends [] = 0
ends (received x ∷ r) = ends r
ends (changed state_init ∷ r) = ends r
ends (changed state_done ∷ r) = suc (ends r)
ends (changed state_failed ∷ r) = suc (ends r)

abbrev pub Handle : Type 0 → Type 0
Handle M = Service M → Option Bytes → Service M

abbrev pub OnState : Type 0 → Type 0 → Type 0
OnState M S = MainState → Service M → Node S → Result (Service M × Node S)

-- The protocol after all messages, whatever states it reported.
abbrev pub machine_after : {M : Type 0} → (M → Option Bytes → M) → List Event → M → M
machine_after next [] m = m
machine_after next (received x ∷ r) m = machine_after next r (next m x)
machine_after next (changed s ∷ r) m = machine_after next r m

-- How an end leaves the node, by the protocol as it is then and the service's hash.
abbrev pub Leaves : Type 0 → Type 0 → Type 0
Leaves M S = MainState → M → Text → Node S → Node S

-- The node after the first end.
abbrev pub node_after :
    {M S : Type 0} → Leaves M S → (M → Option Bytes → M) → List Event → M → Text → Node S → Node S
node_after leaves next [] m hash n = n
node_after leaves next (received x ∷ r) m hash n = node_after leaves next r (next m x) hash n
node_after leaves next (changed state_init ∷ r) m hash n = node_after leaves next r m hash n
node_after leaves next (changed state_done ∷ r) m hash n = leaves state_done m hash n
node_after leaves next (changed state_failed ∷ r) m hash n = leaves state_failed m hash n

module _ {M S : Type 0} where
  -- What happens to one service, in order.
  unfoldable pub run :
      Handle M → OnState M S → List Event → Service M → Node S → Result (Service M × Node S)
  run take_in on [] p n = ok (p, n)
  run take_in on (received x ∷ r) p n = run take_in on r (take_in p x) n
  run take_in on (changed s ∷ r) p n = on s p n >>= λ (q, n'). run take_in on r q n'

  -- `Process`: the protocol is started, and stopped once `done` is closed; `none` waits for that. The node is the
  -- one once all the state changes are over, too, which run in goroutines of their own.
  unfoldable pub process :
      (M → M)
      → (M → M)
      → Handle M
      → OnState M S
      → List Event
      → Service M
      → Node S
      → Result (Option (Service M × Node S))
  unfolding run
  process start stop take_in on r p n =
      run take_in on r (record p { machine = start p.machine }) n >>= λ (q, n').
      if q.done_closed then ok (some (record q { machine = stop q.machine }, n')) else ok none

  -- What holds of the node after any end holds of it after events of which one is an end.
  pub node_after_lem :
      (leaves : Leaves M S) (next : M → Option Bytes → M) (P : Node S → Type 0) (hash : Text)
      (n : Node S)
      → ((s : MainState) (m : M) → IsEnd s → P (leaves s m hash n))
      → (r : List Event) (m : M) → ends r ≡ 1
      → P (node_after leaves next r m hash n)
  node_after_lem leaves next P hash n each [] m h = absurd (omega arith)
  node_after_lem leaves next P hash n each (received x ∷ r) m h =
      node_after_lem leaves next P hash n each r (next m x) h
  node_after_lem leaves next P hash n each (changed state_init ∷ r) m h =
      node_after_lem leaves next P hash n each r m h
  node_after_lem leaves next P hash n each (changed state_done ∷ r) m h = each state_done m tt
  node_after_lem leaves next P hash n each (changed state_failed ∷ r) m h = each state_failed m tt

  -- What a service does with messages and ends, on the nodes that fit its hash.
  pub record Ends (take_in : Handle M) (on : OnState M S) (next : M → Option Bytes → M)
      (leaves : Leaves M S) (Fits : Text → Node S → Type 0) : Type 0 where
    pub takes :
        (p : Service M) (x : Option Bytes) → take_in p x ≡ record p { machine = next p.machine x }
    pub at_init : (p : Service M) (n : Node S) → on state_init p n ≡ ok (p, n)
    pub when_closed :
        (s : MainState) (p : Service M) (n : Node S)
        → IsEnd s
        → p.done_closed ≡ true
        → on s p n ≡ panic close_of_closed_channel
    pub when_open :
        (s : MainState) (p : Service M) (n : Node S)
        → IsEnd s
        → Fits p.hash n
        → p.done_closed ≡ false
        → on s p n ≡ ok (record p { done_closed = true }, leaves s p.machine p.hash n)

  module _ {take_in : Handle M} {on : OnState M S} {next : M → Option Bytes → M}
      {leaves : Leaves M S} {Fits : Text → Node S → Type 0}
      (e : Ends take_in on next leaves Fits) where
    -- Without an end, only the protocol changes.
    run_none :
        (r : List Event) (p : Service M) (n : Node S)
        → ends r ≡ 0
        → run take_in on r p n ≡ ok (record p { machine = machine_after next r p.machine }, n)
    unfolding run
    run_none [] p n h = refl
    run_none (received x ∷ r) p n h =
        rw (e.takes p x) (run_none r (record p { machine = next p.machine x }) n h)
    run_none (changed state_init ∷ r) p n h = rw (e.at_init p n) (run_none r p n h)
    run_none (changed state_done ∷ r) p n h = absurd (omega arith)
    run_none (changed state_failed ∷ r) p n h = absurd (omega arith)

    -- The service after a run with an end.
    abbrev pub service_after : List Event → Service M → Service M
    service_after r p = record p { machine = machine_after next r p.machine; done_closed = true }

    end_then_none :
        (s : MainState) (r : List Event) (p : Service M) (n : Node S)
        → IsEnd s
        → Fits p.hash n
        → p.done_closed ≡ false
        → ends r ≡ 0
        → run take_in on (changed s ∷ r) p n ≡ ok (service_after r p, leaves s p.machine p.hash n)
    unfolding run
    end_then_none s r p n i f o h =
        rw (e.when_open s p n i f o)
          (run_none r (record p { done_closed = true }) (leaves s p.machine p.hash n) h)

    -- Over any events of which one is an end, the service closes its channel and does not panic.
    run_one_end :
        (r : List Event) (p : Service M) (n : Node S)
        → Fits p.hash n
        → p.done_closed ≡ false
        → ends r ≡ 1
        → run take_in on r p n ≡ ok (service_after r p, node_after leaves next r p.machine p.hash n)
    unfolding run
    run_one_end [] p n f o h = absurd (omega arith)
    run_one_end (received x ∷ r) p n f o h =
        rw (e.takes p x) (run_one_end r (record p { machine = next p.machine x }) n f o h)
    run_one_end (changed state_init ∷ r) p n f o h = rw (e.at_init p n) (run_one_end r p n f o h)
    run_one_end (changed state_done ∷ r) p n f o h =
        end_then_none state_done r p n tt f o (omega arith)
    run_one_end (changed state_failed ∷ r) p n f o h =
        end_then_none state_failed r p n tt f o (omega arith)

    run_closed :
        (r : List Event) (p : Service M) (n : Node S)
        → p.done_closed ≡ true
        → 0 < ends r
        → run take_in on r p n ≡ panic close_of_closed_channel
    unfolding run
    run_closed [] p n c h = absurd (omega arith)
    run_closed (received x ∷ r) p n c h =
        rw (e.takes p x) (run_closed r (record p { machine = next p.machine x }) n c h)
    run_closed (changed state_init ∷ r) p n c h = rw (e.at_init p n) (run_closed r p n c h)
    run_closed (changed state_done ∷ r) p n c h = rw (e.when_closed state_done p n tt c)
    run_closed (changed state_failed ∷ r) p n c h = rw (e.when_closed state_failed p n tt c)

    end_then_end :
        (s : MainState) (r : List Event) (p : Service M) (n : Node S)
        → IsEnd s
        → Fits p.hash n
        → p.done_closed ≡ false
        → 0 < ends r
        → run take_in on (changed s ∷ r) p n ≡ panic close_of_closed_channel
    unfolding run
    end_then_end s r p n i f o h =
        rw (e.when_open s p n i f o)
          (run_closed r (record p { done_closed = true }) (leaves s p.machine p.hash n) refl h)

    -- Over any events of which two are ends, the node goes down: the channel is closed twice.
    pub run_second_end :
        (r : List Event) (p : Service M) (n : Node S)
        → Fits p.hash n
        → p.done_closed ≡ false
        → 2 ≤ ends r
        → run take_in on r p n ≡ panic close_of_closed_channel
    unfolding run
    run_second_end [] p n f o h = absurd (omega arith)
    run_second_end (received x ∷ r) p n f o h =
        rw (e.takes p x) (run_second_end r (record p { machine = next p.machine x }) n f o h)
    run_second_end (changed state_init ∷ r) p n f o h =
        rw (e.at_init p n) (run_second_end r p n f o h)
    run_second_end (changed state_done ∷ r) p n f o h =
        end_then_end state_done r p n tt f o (omega arith)
    run_second_end (changed state_failed ∷ r) p n f o h =
        end_then_end state_failed r p n tt f o (omega arith)

    -- `Process` waits as long as no end was reported, and returns after one.
    pub process_waits :
        (start stop : M → M) (r : List Event) (p : Service M) (n : Node S)
        → p.done_closed ≡ false
        → ends r ≡ 0
        → process start stop take_in on r p n ≡ ok none
    unfolding process
    process_waits start stop r p n o h =
        rw (run_none r (record p { machine = start p.machine }) n h, o) refl

    pub process_returns :
        (start stop : M → M) (r : List Event) (p : Service M) (n : Node S)
        → Fits p.hash n
        → p.done_closed ≡ false
        → ends r ≡ 1
        → process start stop take_in on r p n
          ≡ ok (
              some (
                record p {
                  machine = stop (machine_after next r (start p.machine));
                  done_closed = true;
                },
                node_after leaves next r (start p.machine) p.hash n,
              ))
    unfolding process
    process_returns start stop r p n f o h =
        rw (run_one_end r (record p { machine = start p.machine }) n f o h) refl
