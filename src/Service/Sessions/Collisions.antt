-- ===== src/Service/Sessions/Collisions.antt =====
-- Two signers for the same message at the same time.
use alice_tss.Base.{
  ◌≡◌, refl, sym, ◌∙◌, true, false, none, Text, Bytes, lookup, lookup-erase, text_eq_refl, Result,
  ok,
}
use alice_tss.Types.{SignerConfig}
use alice_tss.Libs.{Libs, DkgOutcome, SignOutcome}
use alice_tss.Peer.Manager.{get_protocol}
use alice_tss.Store.Handler.{HandlerData}
use alice_tss.Service.Node.{MainState, Machine, Service, Node}
use alice_tss.Service.Signer.{new_signer_service, on_signer_state_changed}
use alice_tss.Service.Lifecycle.{IsEnd}
use alice_tss.Service.Lifecycle.Services.{SignCalm}
use alice_tss.Service.Lifecycle.Signers.{signer_leaves, signer_once, signer_handlers}
use alice_tss.Service.Sessions.Laws.{new_signer_service-Made}

module _ (l : Libs) (m : Machine SignOutcome) {S : Type 0} (h : HandlerData S) {P : Type 0}
    (new_paillier : Result P) (new_signer : P → DkgOutcome → Bytes → Result m.M) where
  -- Where a node makes a second signer for a message while the first one runs, and no save of a signature panics:
  -- the end of the first one takes away the stream handler of the second, which runs still and gets no
  -- message any more.
  pub signers_collide :
      (calm : SignCalm h) (cfg1 cfg2 : SignerConfig) (msg : Text) (n n1 n2 : Node S)
      (p1 p2 : Service m.M) (state : MainState)
      → new_signer_service l m h new_paillier new_signer cfg1 msg n ≡ ok (p1, n1)
      → new_signer_service l m h new_paillier new_signer cfg2 msg n1 ≡ ok (p2, n2)
      → IsEnd state
      → (q : Service m.M) × (n3 : Node S) × (on_signer_state_changed l m h state p1 n2 ≡ ok (q, n3))
        × (p2.done_closed ≡ false)
        × (lookup (get_protocol p2.hash) n3.handlers ≡ none)
  signers_collide calm cfg1 cfg2 msg n n1 n2 p1 p2 state e1 e2 end =
      let a = new_signer_service-Made l m h new_paillier new_signer cfg1 msg n p1 n1 e1 in
      let b = new_signer_service-Made l m h new_paillier new_signer cfg2 msg n1 p2 n2 e2 in
      let same : p2.hash ≡ p1.hash = b.own_hash ∙ sym a.own_hash in
      (
        record p1 { done_closed = true },
        signer_leaves l m h state p1.machine p1.hash n2,
        signer_once l m h calm state p1 n2 end a.runs,
        b.runs,
        rw (same, signer_handlers l m h state p1.machine p1.hash n2 end)
            (lookup-erase (get_protocol p1.hash) (get_protocol p1.hash) n2.handlers
              ∙ rw (text_eq_refl (get_protocol p1.hash)) refl),
      )
