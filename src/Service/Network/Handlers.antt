-- ===== src/Service/Network/Handlers.antt =====
-- What the signers of service/signer.go make of the stream handlers of their host.
use alice_tss.Base.{
  ◌≡◌, refl, ◌∙◌, sym, subst, true, false, some, inl, inr, Text, Bytes, text_eq, text_eq→eq,
  text_eq_refl, lookup, erase, lookup-insert, lookup-erase, Bool, Bool-cases, Result, ok,
}
use mathlib.Core.Option.{some-injective}
use alice_tss.Libs.{Libs, DkgOutcome, SignOutcome}
use alice_tss.Peer.Manager.{get_protocol}
use alice_tss.Peer.Manager.Protocols.{get_protocol_ne}
use alice_tss.Store.Handler.{HandlerData}
use alice_tss.Service.Node.{
  MainState, state_init, state_done, state_failed, Machine, Service, Node, set_stream_handler,
}
use alice_tss.Service.Signer.{on_signer_state_changed}
use alice_tss.Service.Lifecycle.{IsEnd}
use alice_tss.Service.Lifecycle.Services.{SignCalm}
use alice_tss.Service.Lifecycle.Signers.{signer_leaves, signer_once, signer_twice, signer_handlers}
use alice_tss.Service.Sessions.{Sessions, Step, begins, reads, changes}
use alice_tss.Service.Sessions.Laws.{new_signer_service-Made}

-- Each handler of a host for the protocol of a hash is the one of that hash.
abbrev pub OwnHandlers : {S : Type 0} → Node S → Type 0
OwnHandlers n = (k hash : Text) → lookup (get_protocol k) n.handlers ≡ some hash → hash ≡ k

module _ {S : Type 0} where
  set-OwnHandlers :
      (hash : Text) (n : Node S)
      → OwnHandlers n
      → OwnHandlers (set_stream_handler (get_protocol hash) hash n)
  set-OwnHandlers hash n own k j e = elim (Bool-cases (text_eq hash k)) [
    | inl t ↦
        let same : hash ≡ k = text_eq→eq hash k t in
        let now : some hash ≡ some j =
          rw
            (
              lookup-insert (get_protocol hash) (get_protocol k) hash n.handlers,
              ← same,
              text_eq_refl (get_protocol hash),
            )
            at e in
        sym (some-injective _ _ now) ∙ same
    | inr f ↦ own k j (
        rw
          (
            lookup-insert (get_protocol hash) (get_protocol k) hash n.handlers,
            get_protocol_ne hash k f,
          )
          at e)
  ]

  erase-OwnHandlers :
      (hash : Text) (n n' : Node S)
      → n'.handlers ≡ erase (get_protocol hash) n.handlers
      → OwnHandlers n
      → OwnHandlers n'
  erase-OwnHandlers hash n n' left own k j e =
      let after = rw (left, lookup-erase (get_protocol hash) (get_protocol k) n.handlers) at e in
      elim (Bool-cases (text_eq (get_protocol hash) (get_protocol k))) [
        | inl t ↦ cc (rw t at after)
        | inr f ↦ own k j (rw f at after)
      ]

module _ (l : Libs) (m : Machine SignOutcome) {S : Type 0} (h : HandlerData S)
    (calm : SignCalm h) where
  -- What a state change does to the handlers of the host: an end takes that of the signer away.
  ends-OwnHandlers :
      (p q : Service m.M) (n n' : Node S) (state : MainState)
      → IsEnd state
      → (closed : Bool) → p.done_closed ≡ closed
      → on_signer_state_changed l m h state p n ≡ ok (q, n')
      → OwnHandlers n
      → OwnHandlers n'
  ends-OwnHandlers p q n n' state end true c w own = cc (signer_twice l m h calm state p n end c)
  ends-OwnHandlers p q n n' state end false c w own =
      let v : Service m.M = record p { done_closed = true } in
      let n1 = signer_leaves l m h state p.machine p.hash n in
      let both : ◌≡◌ {A = Result (Service m.M × Node S)} (ok (v, n1)) (ok (q, n')) =
        sym (signer_once l m h calm state p n end c) ∙ w in
      let ne : n1 ≡ n' = cc in
      erase-OwnHandlers p.hash n n' (rw (← ne) (signer_handlers l m h state p.machine p.hash n end))
        own

  changes-OwnHandlers :
      (p q : Service m.M) (n n' : Node S) (state : MainState)
      → on_signer_state_changed l m h state p n ≡ ok (q, n')
      → OwnHandlers n
      → OwnHandlers n'
  unfolding on_signer_state_changed
  changes-OwnHandlers p q n n' state_init w own =
      let both : ◌≡◌ {A = Result (Service m.M × Node S)} (ok (p, n)) (ok (q, n')) = w in
      let ne : n ≡ n' = cc in subst OwnHandlers ne own
  changes-OwnHandlers p q n n' state_done w own =
      ends-OwnHandlers p q n n' state_done tt p.done_closed refl w own
  changes-OwnHandlers p q n n' state_failed w own =
      ends-OwnHandlers p q n n' state_failed tt p.done_closed refl w own

  module _ {P : Type 0} (new_paillier : Result P)
      (new_signer : P → DkgOutcome → Bytes → Result m.M) where
    pub Step-OwnHandlers :
        (s t : Sessions m.M S)
        → Step l m h new_paillier new_signer s t
        → OwnHandlers s.node
        → OwnHandlers t.node
    Step-OwnHandlers s t (begins cfg msg p n made fresh) own =
        let new = new_signer_service-Made l m h new_paillier new_signer cfg msg s.node p n made in
        rw new.listens (set-OwnHandlers p.hash s.node own)
    Step-OwnHandlers s t (reads protocol hash p x routed there) own = own
    Step-OwnHandlers s t (changes hash p q n state there changed) own =
        changes-OwnHandlers p q s.node n state changed own
