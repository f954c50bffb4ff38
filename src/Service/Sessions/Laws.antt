-- ===== src/Service/Sessions/Laws.antt =====
-- The signers of one node do not disturb each other.
use alice_tss.Base.{
  ◌≡◌, refl, ◌∙◌, sym, true, false, Option, none, some, ◌⊎◌, inl, inr, Text, Bytes, text_eq,
  text_eq→eq, text_eq_refl, Dict, lookup, insert, lookup-insert, lookup-erase, Bool, Bool-cases,
  Result, ok, err, panic,
}
use mathlib.Core.Option.{some-injective}
use alice_tss.Types.{SignerConfig}
use alice_tss.Libs.{Libs, DkgOutcome, SignOutcome}
use alice_tss.Peer.Manager.{get_protocol}
use alice_tss.Peer.Manager.Protocols.{get_protocol_ne}
use alice_tss.Store.Handler.{HandlerData}
use alice_tss.Service.Node.{
  MainState, state_init, state_done, state_failed, Machine, Service, Node, set_stream_handler,
}
use alice_tss.Service.Signer.{
  create_signer, new_signer_service, handle_signer, on_signer_state_changed,
}
use alice_tss.Utils.Keys.{to_hex_hash}
use alice_tss.Service.Lifecycle.{IsEnd}
use alice_tss.Service.Lifecycle.Services.{SignCalm}
use alice_tss.Service.Lifecycle.Signers.{signer_leaves, signer_once, signer_twice, signer_handlers}
use alice_tss.Steps.{Reach, Reach-lem}
use alice_tss.Service.Sessions.{Sessions, Step, begins, reads, changes, idle}

-- The entries of a map after an insertion.
insert_entry :
    {V : Type 0} (j k : Text) (v p : V) (m : Dict V)
    → lookup k (insert j v m) ≡ some p
    → ((text_eq j k ≡ true) × (v ≡ p)) ⊎ ((text_eq j k ≡ false) × (lookup k m ≡ some p))
insert_entry j k v p m e = elim (Bool-cases (text_eq j k)) [
  | inl t ↦ inl (t, some-injective _ _ (rw (lookup-insert j k v m, t) at e))
  | inr f ↦ inr (f, rw (lookup-insert j k v m, f) at e)
]

-- The handler that is due for a hash: none once the channel is closed.
abbrev pub due : Bool → Text → Option Text
due true k = none
due false k = some k

-- Each signer stands under its own hash, and the host has its handler exactly as long as it runs.
pub record Inv {M S : Type 0} (s : Sessions M S) : Type 0 where
  pub named : (k : Text) (p : Service M) → lookup k s.signers ≡ some p → p.hash ≡ k
  pub handled :
      (k : Text) (p : Service M)
      → lookup k s.signers ≡ some p
      → lookup (get_protocol k) s.node.handlers ≡ due p.done_closed k

module _ {M S : Type 0} where
  -- A signer is put under its hash, and the host changes at most what it does for that hash.
  update-Inv :
      (s : Sessions M S) (hash : Text) (v : Service M) (n : Node S)
      → v.hash ≡ hash
      → lookup (get_protocol hash) n.handlers ≡ due v.done_closed hash
      → ((k : Text)
          → text_eq hash k ≡ false
          → lookup (get_protocol k) n.handlers ≡ lookup (get_protocol k) s.node.handlers)
      → Inv s
      → Inv (record { signers = insert hash v s.signers; node = n })
  update-Inv s hash v n own now same i = record {
    named = λ k p e. elim (insert_entry hash k v p s.signers e) [
      | inl (t, w) ↦ rw (← w) (own ∙ text_eq→eq hash k t)
      | inr (f, w) ↦ i.named k p w
    ];
    handled = λ k p e. elim (insert_entry hash k v p s.signers e) [
      | inl (t, w) ↦ rw (← w, ← text_eq→eq hash k t) now
      | inr (f, w) ↦ same k f ∙ i.handled k p w
    ];
  }

module _ (l : Libs) (m : Machine SignOutcome) {S : Type 0} (h : HandlerData S) {P : Type 0}
    (new_paillier : Result P) (new_signer : P → DkgOutcome → Bytes → Result m.M) where
  -- A new signer has the hash of its message, its channel is open, and the host has its handler.
  pub record Made (msg : Text) (n : Node S) (p : Service m.M) (n' : Node S) : Type 0 where
    pub own_hash : p.hash ≡ to_hex_hash l msg
    pub runs : p.done_closed ≡ false
    pub listens : n' ≡ set_stream_handler (get_protocol p.hash) p.hash n

  create_signer-Made :
      (cfg : SignerConfig) (msg : Text) (n : Node S) (r : Result m.M) (p : Service m.M)
      (n' : Node S)
      → create_signer l m h new_paillier new_signer cfg msg ≡ r
      → new_signer_service l m h new_paillier new_signer cfg msg n ≡ ok (p, n')
      → Made msg n p n'
  unfolding new_signer_service
  create_signer-Made cfg msg n (ok x) p n' c e =
      let hash = to_hex_hash l msg in
      let v : Service m.M = record { machine = x; hash = hash; done_closed = false } in
      let both : ◌≡◌ {A = Result (Service m.M × Node S)}
          (ok (v, set_stream_handler (get_protocol hash) hash n)) (ok (p, n')) =
        rw c at e in
      let pe : v ≡ p = cc in
      let ne : set_stream_handler (get_protocol hash) hash n ≡ n' = cc in
      rw (← pe, ← ne) (record { own_hash = refl; runs = refl; listens = refl })
  create_signer-Made cfg msg n (err x) p n' c e = cc (rw c at e)
  create_signer-Made cfg msg n (panic x) p n' c e = cc (rw c at e)

  pub new_signer_service-Made :
      (cfg : SignerConfig) (msg : Text) (n : Node S) (p : Service m.M) (n' : Node S)
      → new_signer_service l m h new_paillier new_signer cfg msg n ≡ ok (p, n')
      → Made msg n p n'
  new_signer_service-Made cfg msg n p n' e = create_signer-Made cfg msg n _ p n' refl e

module _ (l : Libs) (m : Machine SignOutcome) {S : Type 0} (h : HandlerData S) (calm : SignCalm h)
    {P : Type 0} (new_paillier : Result P) (new_signer : P → DkgOutcome → Bytes → Result m.M) where
  begins-Inv :
      (s : Sessions m.M S) (cfg : SignerConfig) (msg : Text) (p : Service m.M) (n : Node S)
      → new_signer_service l m h new_paillier new_signer cfg msg s.node ≡ ok (p, n)
      → Inv s
      → Inv (record { signers = insert p.hash p s.signers; node = n })
  begins-Inv s cfg msg p n e i =
      let new = new_signer_service-Made l m h new_paillier new_signer cfg msg s.node p n e in
      rw new.listens (
        update-Inv s p.hash p (set_stream_handler (get_protocol p.hash) p.hash s.node) refl
          (lookup-insert (get_protocol p.hash) (get_protocol p.hash) p.hash s.node.handlers
            ∙ rw (text_eq_refl (get_protocol p.hash), new.runs) refl)
          (λ k f.
            lookup-insert (get_protocol p.hash) (get_protocol k) p.hash s.node.handlers
            ∙ rw (get_protocol_ne p.hash k f) refl)
          i)

  reads-Inv :
      (s : Sessions m.M S) (hash : Text) (p : Service m.M) (x : Option Bytes)
      → lookup hash s.signers ≡ some p
      → Inv s
      → Inv (record s { signers = insert hash (handle_signer l m h p x) s.signers })
  unfolding handle_signer
  reads-Inv s hash p x e i =
      update-Inv s hash (handle_signer l m h p x) s.node (i.named hash p e) (i.handled hash p e)
        (λ k f. refl) i

  -- An end of a signer that runs.
  ends-Inv :
      (s : Sessions m.M S) (hash : Text) (p q : Service m.M) (n : Node S) (state : MainState)
      → IsEnd state
      → lookup hash s.signers ≡ some p
      → (closed : Bool) → p.done_closed ≡ closed
      → on_signer_state_changed l m h state p s.node ≡ ok (q, n)
      → Inv s
      → Inv (record { signers = insert hash q s.signers; node = n })
  ends-Inv s hash p q n state end e true c w i = cc (signer_twice l m h calm state p s.node end c)
  ends-Inv s hash p q n state end e false c w i =
      let v : Service m.M = record p { done_closed = true } in
      let n1 = signer_leaves l m h state p.machine p.hash s.node in
      let both : ◌≡◌ {A = Result (Service m.M × Node S)} (ok (v, n1)) (ok (q, n)) =
        sym (signer_once l m h calm state p s.node end c) ∙ w in
      let qe : v ≡ q = cc in
      let ne : n1 ≡ n = cc in
      let own = i.named hash p e in
      let left = signer_handlers l m h state p.machine p.hash s.node end in
      rw (← qe, ← ne)
        (update-Inv s hash v n1 own
          (rw (left, own)
            (lookup-erase (get_protocol hash) (get_protocol hash) s.node.handlers
              ∙ rw (text_eq_refl (get_protocol hash)) refl))
          (λ k f.
            rw (left, own)
              (lookup-erase (get_protocol hash) (get_protocol k) s.node.handlers
                ∙ rw (get_protocol_ne hash k f) refl))
          i)

  changes-Inv :
      (s : Sessions m.M S) (hash : Text) (p q : Service m.M) (n : Node S) (state : MainState)
      → lookup hash s.signers ≡ some p
      → on_signer_state_changed l m h state p s.node ≡ ok (q, n)
      → Inv s
      → Inv (record { signers = insert hash q s.signers; node = n })
  unfolding on_signer_state_changed
  changes-Inv s hash p q n state_init e w i =
      let both : ◌≡◌ {A = Result (Service m.M × Node S)} (ok (p, s.node)) (ok (q, n)) = w in
      let qe : p ≡ q = cc in
      let ne : s.node ≡ n = cc in
      rw (← qe, ← ne)
        (update-Inv s hash p s.node (i.named hash p e) (i.handled hash p e) (λ k f. refl) i)
  changes-Inv s hash p q n state_done e w i =
      ends-Inv s hash p q n state_done tt e p.done_closed refl w i
  changes-Inv s hash p q n state_failed e w i =
      ends-Inv s hash p q n state_failed tt e p.done_closed refl w i

  -- Every step keeps it.
  pub Step-Inv : (s t : Sessions m.M S) → Step l m h new_paillier new_signer s t → Inv s → Inv t
  Step-Inv s t (begins cfg msg p n made fresh) i = begins-Inv s cfg msg p n made i
  Step-Inv s t (reads protocol hash p x routed there) i = reads-Inv s hash p x there i
  Step-Inv s t (changes hash p q n state there changed) i =
      changes-Inv s hash p q n state there changed i

  -- What can happen on a node that starts without signers.
  abbrev pub Happens : Node S → Sessions m.M S → Type 0
  Happens n s = Reach (Step l m h new_paillier new_signer) (idle n) s

  pub Happens-Inv : (n : Node S) {s : Sessions m.M S} → Happens n s → Inv s
  Happens-Inv n r = Reach-lem Inv Step-Inv r (record { named = λ k p e. cc; handled = λ k p e. cc })

  -- On a node that starts without signers and where no save of a signature panics, with signers for any
  -- messages, no two at a time for the same one, whose streams and state changes come in any order: as long
  -- as a signer has not closed its channel, the host hands the streams of its protocol to it and to no
  -- other, and once it has, the host has no handler for them.
  pub signers_apart :
      (n : Node S) {s : Sessions m.M S} (k : Text) (p : Service m.M)
      → Happens n s
      → lookup k s.signers ≡ some p
      → (p.hash ≡ k) × (lookup (get_protocol k) s.node.handlers ≡ due p.done_closed k)
  signers_apart n k p r e = let i = Happens-Inv n r in (i.named k p e, i.handled k p e)
