-- ===== src/Service/Lifecycle/Dones.antt =====
-- Runs of a service that end with a done.
use alice_tss.Base.{◌≡◌, refl, Option, List, [], ◌∷◌, ◌++◌, Text, Bytes, arith}
use alice_tss.Service.Node.{state_init, state_done, state_failed, Node}
use alice_tss.Service.Lifecycle.{Event, received, changed, ends, Leaves, machine_after, node_after}

-- Messages and state changes of which the one end is a done.
abbrev pub to_done : List Event → List Event → List Event
to_done before after = before ++ changed state_done ∷ after

pub ends-to_done :
    (before after : List Event) → ends before ≡ 0 → ends after ≡ 0 → ends (to_done before after) ≡ 1
ends-to_done [] after h k = omega arith
ends-to_done (received x ∷ r) after h k = ends-to_done r after h k
ends-to_done (changed state_init ∷ r) after h k = ends-to_done r after h k
ends-to_done (changed state_done ∷ r) after h k = absurd (omega arith)
ends-to_done (changed state_failed ∷ r) after h k = absurd (omega arith)

-- The done finds the protocol with the messages before it.
pub node_after-to_done :
    {M S : Type 0} (leaves : Leaves M S) (next : M → Option Bytes → M) (before after : List Event)
    (m : M) (hash : Text) (n : Node S)
    → ends before ≡ 0
    → node_after leaves next (to_done before after) m hash n
      ≡ leaves state_done (machine_after next before m) hash n
node_after-to_done leaves next [] after m hash n h = refl
node_after-to_done leaves next (received x ∷ r) after m hash n h =
    node_after-to_done leaves next r after (next m x) hash n h
node_after-to_done leaves next (changed state_init ∷ r) after m hash n h =
    node_after-to_done leaves next r after m hash n h
node_after-to_done leaves next (changed state_done ∷ r) after m hash n h = absurd (omega arith)
node_after-to_done leaves next (changed state_failed ∷ r) after m hash n h = absurd (omega arith)
