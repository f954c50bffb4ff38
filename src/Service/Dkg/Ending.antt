-- ===== src/Service/Dkg/Ending.antt =====
-- How a key generation ends, in service/dkg.go: `OnStateChanged` closes `done` before it saves, in another goroutine
-- than `Process`, which returns once `done` is closed. The save and the return come in any order.
use alice_tss.Base.{
  ◌≡◌, refl, true, false, Bool, Option, some, Text, Result, ok, err, panic, Panic, ◌≢◌, sym, ap,
  ◌∙◌, subst, ◌⊎◌, inl, inr,
}
use alice_tss.Libs.{DkgOutcome}
use alice_tss.Store.Handler.{HandlerData}
use alice_tss.Service.Node.{Machine, Service, Node, close_channel}
use alice_tss.Service.Dkg.{kept}
use alice_tss.Service.Lifecycle.Services.{close_channel_open, written_goes_on}
use alice_tss.Steps.{Reach, start, after, Reach-lem}

-- Where `OnStateChanged` stands: before it closes the channel, before it saves the result it has read, or behind
-- that.
pub data Stage : Type 0 where
  closing : Stage
  saving : Option DkgOutcome → Stage
  over : Stage

-- A service whose protocol reports a done, its node, and whether `Process` has returned.
pub record Ending (M S : Type 0) : Type 0 where
  pub service : Service M
  pub node : Node S
  pub phase : Stage
  pub returned : Bool

module _ (m : Machine DkgOutcome) {S : Type 0} (h : HandlerData S) where
  pub data Step (s : Ending m.M S) : Ending m.M S → Type 0 where
    closes :
        (q : Service m.M)
        → s.phase ≡ closing
        → close_channel s.service ≡ ok q
        → Step s (record s { service = q; phase = saving (m.get_result s.service.machine) })
    saves :
        (r : Option DkgOutcome) (q : Service m.M) (n : Node S)
        → s.phase ≡ saving r
        → kept m h s.service s.node r ≡ ok (q, n)
        → Step s (record s { service = q; node = n; phase = over })
    returns :
        s.service.done_closed ≡ true
        → s.returned ≡ false
        → Step s (record s {
          service = record s.service { machine = m.stop s.service.machine };
          returned = true;
        })

  -- The protocol has just become done.
  abbrev pub at_done : Service m.M → Node S → Ending m.M S
  at_done p n = record { service = p; node = n; phase = closing; returned = false }

  -- What `Process` has returned from, and what is saved, where the save reports no panic.
  module _ (p : Service m.M) (n : Node S) (d : DkgOutcome) (there : m.get_result p.machine ≡ some d)
      (runs : p.done_closed ≡ false)
      (calm : (x : Panic) → (h.save_dkg_result_data n.store p.hash d).0 ≢ panic x) where
    abbrev pub saved_node : Node S
    saved_node = record n { store = (h.save_dkg_result_data n.store p.hash d).1 }

    abbrev AtPhase : Stage → Ending m.M S → Type 0
    AtPhase closing s = (s.node ≡ n) × (s.returned ≡ false) × (s.service ≡ p)
    AtPhase (saving r) s = (s.node ≡ n) × (r ≡ some d) × (s.service.hash ≡ p.hash)
    AtPhase over s = s.node ≡ saved_node

    abbrev hash_in : Result (Service m.M) → Text
    hash_in (ok q) = q.hash
    hash_in (err e) = p.hash
    hash_in (panic x) = p.hash

    abbrev node_in : Result (Service m.M × Node S) → Node S
    node_in (ok (q, n')) = n'
    node_in (err e) = n
    node_in (panic x) = n

    closes_hash : (q : Service m.M) → close_channel p ≡ ok q → q.hash ≡ p.hash
    closes_hash q e = sym (ap hash_in (sym (close_channel_open p runs) ∙ e))

    saves_node :
        (q q' : Service m.M) (n' : Node S)
        → q.hash ≡ p.hash
        → kept m h q n (some d) ≡ ok (q', n')
        → n' ≡ saved_node
    saves_node q q' n' same e =
        sym (
          ap node_in (
            sym (written_goes_on q n (h.save_dkg_result_data n.store q.hash d) (rw same calm)) ∙ e))
        ∙ rw same refl

    -- `Process` does not return before the channel is closed, and nothing else changes when it does.
    returns_kept :
        (x : Stage) (s : Ending m.M S)
        → s.service.done_closed ≡ true
        → AtPhase x s
        → AtPhase x (record s {
          service = record s.service { machine = m.stop s.service.machine };
          returned = true;
        })
    returns_kept closing s closed (same, early, is_p) =
        let contrary : false ≡ true =
          sym runs ∙ sym (ap (λ (q : Service m.M). q.done_closed) is_p) ∙ closed in
        cc
    returns_kept (saving r) s closed inv = inv
    returns_kept over s closed inv = inv

    Step-AtPhase : (s t : Ending m.M S) → Step s t → AtPhase s.phase s → AtPhase t.phase t
    Step-AtPhase s t (closes q at closed) inv =
        let (same, _, is_p) = subst (λ x. AtPhase x s) at inv in
        (
          same,
          ap (λ (x : Service m.M). m.get_result x.machine) is_p ∙ there,
          closes_hash q (subst (λ (x : Service m.M). close_channel x ≡ ok q) is_p closed),
        )
    Step-AtPhase s t (saves r q n' at wrote) inv =
        let (same, is_d, hash) = subst (λ x. AtPhase x s) at inv in
        let wrote_d : kept m h s.service s.node (some d) ≡ ok (q, n') =
          subst (λ x. kept m h s.service s.node x ≡ ok (q, n')) is_d wrote in
        saves_node s.service q n' hash
          (subst (λ (x : Node S). kept m h s.service x (some d) ≡ ok (q, n')) same wrote_d)
    Step-AtPhase s t (returns closed still) inv = returns_kept s.phase s closed inv

    reached-AtPhase : (s : Ending m.M S) → Reach Step (at_done p n) s → AtPhase s.phase s
    reached-AtPhase s r =
        Reach-lem (λ (s : Ending m.M S). AtPhase s.phase s) Step-AtPhase r (refl, refl, refl)

    by_phase :
        (x : Stage) (s : Ending m.M S)
        → s.phase ≡ x
        → AtPhase x s
        → s.returned ≡ true
        → ((s.phase ≡ saving (some d)) × (s.node ≡ n)) ⊎ ((s.phase ≡ over) × (s.node ≡ saved_node))
    by_phase closing s at (same, early, is_p) back =
        let contrary : false ≡ true = sym early ∙ back in cc
    by_phase (saving r) s at (same, is_d, hash) back = inl (at ∙ ap saving is_d, same)
    by_phase over s at same back = inr (at, same)

    -- Once `Process` has returned, the outcome is still to be saved or has been.
    pub returned_lem :
        (s : Ending m.M S)
        → Reach Step (at_done p n) s
        → s.returned ≡ true
        → ((s.phase ≡ saving (some d)) × (s.node ≡ n)) ⊎ ((s.phase ≡ over) × (s.node ≡ saved_node))
    returned_lem s r back = by_phase s.phase s refl (reached-AtPhase s r) back

    pub over_lem :
        (s : Ending m.M S) → Reach Step (at_done p n) s → s.phase ≡ over → s.node ≡ saved_node
    over_lem s r done = subst (λ x. AtPhase x s) done (reached-AtPhase s r)

    -- `Process` may return before the save.
    pub returns_first :
        (s : Ending m.M S) × Reach Step (at_done p n) s × (s.returned ≡ true) × (s.node ≡ n)
    returns_first =
        let q : Service m.M = record p { done_closed = true } in
        (
          record {
            service = record q { machine = m.stop p.machine };
            node = n;
            phase = saving (m.get_result p.machine);
            returned = true;
          },
          after (after start (closes q refl (close_channel_open p runs))) (returns refl refl),
          refl,
          refl,
        )
