-- ===== src/Server/SelfService/Calls/Shares.antt =====
-- The key generations of one process end in one store: server/self_service.go, service/dkg.go and
-- store/badger_handler.go together.
use alice_tss.Base.{
  ◌≡◌, ℕ, refl, ◌∙◌, true, false, some, none, List, [], ◌∷◌, Text, text_eq, text_eq→eq, Bool-cases,
  inl, inr, Dict, lookup, Fresh, IsMap, Result, ok, ◌>>=◌, Option,
}
use alice_tss.Libs.{Libs, LibLaws, PrivateKey, DkgOutcome}
use alice_tss.Utils.Convert.{convert_dkg_result_lem}
use alice_tss.Store.Backend.{Codec, CodecLaws, Badger, BadgerLaws}
use alice_tss.Store.Badger.{pubkey_text, save_dkg_result_data, get_signer_config}
use alice_tss.Store.Badger.Promise.{Promise, promise_after, save}
use alice_tss.Store.Badger.RoundTrip.{IsOutcome, signer_config_of}
use alice_tss.Store.Badger.Refine.{Keeps, write, write-Keeps, get_signer_config-Holds}
use alice_tss.Store.Handler.{HandlerData, badger_handler}
use alice_tss.Service.Node.{state_done, Machine, Service}
use alice_tss.Service.Dkg.{on_dkg_state_changed}
use alice_tss.Service.Signer.{create_signer}
use alice_tss.Service.Lifecycle.Services.{close_channel_open, written_goes_on}
use alice_tss.Server.Tss.{Alice, SignRequest}
use alice_tss.Server.SelfService.Calls.{node_id, node_request}
use alice_tss.Server.SelfService.Calls.Sign.{Signs}

-- A key generation at its end: its service, the handlers of its host, and its outcome.
pub record Generated (M : Type 0) : Type 0 where
  pub service : Service M
  pub handlers : Dict Text
  pub outcome : DkgOutcome

abbrev pub outcomes_of : {M : Type 0} → List (Generated M) → Dict DkgOutcome
outcomes_of [] = []
outcomes_of (g ∷ gs) = (g.service.hash, g.outcome) ∷ outcomes_of gs

-- The outcome is the one that the protocol gives, it is well-formed, and the service runs still.
abbrev pub AtEnd : {M : Type 0} → (M → Option DkgOutcome) → List (Generated M) → Type 0
AtEnd get [] = Unit
AtEnd get (g ∷ gs) =
    ((g.service.done_closed ≡ false)
      × (get g.service.machine ≡ some g.outcome)
      × IsOutcome g.outcome)
    × AtEnd get gs

-- The outcomes that are promised after all of them were saved.
abbrev promise_all : Promise → Dict DkgOutcome → Promise
promise_all p [] = p
promise_all p ((k, d) ∷ r) = promise_all (promise_after p (save k d)) r

promise_all-Fresh :
    (p : Promise) (k : Text) (r : Dict DkgOutcome) → Fresh k r → promise_all p r k ≡ p k
unfolding promise_after
promise_all-Fresh p k [] h = refl
promise_all-Fresh p k ((j, d) ∷ r) h =
    promise_all-Fresh (promise_after p (save j d)) k r h.1 ∙ rw h.0 refl

promise_all_lem :
    (p : Promise) (k : Text) (d : DkgOutcome) (r : Dict DkgOutcome)
    → IsMap r
    → lookup k r ≡ some d
    → promise_all p r k ≡ some d
unfolding promise_after
promise_all_lem p k d [] m h = cc
promise_all_lem p k d ((j, d') ∷ r) m h = elim (Bool-cases (text_eq j k)) [
  | inl same ↦
      promise_all-Fresh (promise_after p (save j d')) k r (rw (text_eq→eq j k same) at m.0)
      ∙ rw same (rw same at h)
  | inr ne ↦ promise_all_lem (promise_after p (save j d')) k d r m.1 (rw ne at h)
]

module _ (m : Machine DkgOutcome) {S : Type 0} (h : HandlerData S) where
  -- Key generations on hosts that share a store end one after the other: the store then.
  abbrev pub end_all : List (Generated m.M) → S → Result S
  end_all [] s = ok s
  end_all (g ∷ gs) s =
      on_dkg_state_changed m h state_done g.service (record { handlers = g.handlers; store = s })
      >>= λ (q, n). end_all gs n.store

  -- No save on the way reports an error.
  abbrev pub AllSaved : List (Generated m.M) → S → Type 0
  AllSaved [] s = Unit
  AllSaved (g ∷ gs) s =
      ((h.save_dkg_result_data s g.service.hash g.outcome).0 ≡ ok tt)
      × AllSaved gs (h.save_dkg_result_data s g.service.hash g.outcome).1

  end_one :
      (g : Generated m.M) (s : S)
      → g.service.done_closed ≡ false
      → m.get_result g.service.machine ≡ some g.outcome
      → (h.save_dkg_result_data s g.service.hash g.outcome).0 ≡ ok tt
      → on_dkg_state_changed m h state_done g.service (record { handlers = g.handlers; store = s })
        ≡ ok (
          record g.service { done_closed = true },
          record {
            handlers = g.handlers;
            store = (h.save_dkg_result_data s g.service.hash g.outcome).1;
          },
        )
  unfolding on_dkg_state_changed
  end_one g s runs there saved =
      rw (there, close_channel_open g.service runs)
        (written_goes_on (record g.service { done_closed = true })
          (record { handlers = g.handlers; store = s }) _ (λ x e. cc))

module _ (l : Libs) (laws : LibLaws l) (c : Codec) (codec : CodecLaws c) (b : Badger c.Doc)
    (badger : BadgerLaws b) (key : PrivateKey) (m : Machine DkgOutcome) where
  end_all-Keeps :
      (gs : List (Generated m.M)) (db : b.Db) (p : Promise)
      → AtEnd m.get_result gs
      → AllSaved m (badger_handler l c b key) gs db
      → Keeps l laws c codec b badger key db p
      → (db' : b.Db) × (end_all m (badger_handler l c b key) gs db ≡ ok db')
        × Keeps l laws c codec b badger key db' (promise_all p (outcomes_of gs))
  unfolding write
  end_all-Keeps [] db p e s h = (db, refl, h)
  end_all-Keeps (g ∷ gs) db p ((runs, there, good), e) (saved, s) h =
      let k = g.service.hash in
      let (db', eq, kept) =
        end_all-Keeps gs (save_dkg_result_data l c b key db k g.outcome).1
          (promise_after p (save k g.outcome)) e s
          (write-Keeps l laws c codec b badger key db p (save k g.outcome) good h saved) in
      (db', rw (end_one m (badger_handler l c b key) g db runs there saved) eq, kept)

  -- Key generations of one process, under distinct hashes, that end one after the other, in any order, over
  -- any badger store, each with a well-formed outcome and with no save that reports an error: none of them
  -- disturbs another, for each of them the store answers with the configuration of its own outcome.
  pub end_all_shares :
      (gs : List (Generated m.M)) (db : b.Db) (k : Text) (d : DkgOutcome)
      → AtEnd m.get_result gs
      → IsMap (outcomes_of gs)
      → AllSaved m (badger_handler l c b key) gs db
      → lookup k (outcomes_of gs) ≡ some d
      → (db' : b.Db) × (end_all m (badger_handler l c b key) gs db ≡ ok db')
        × (get_signer_config l c b key db' k (pubkey_text l d) ≡ ok (signer_config_of d))
  end_all_shares gs db k d e distinct s there =
      let (db', eq, kept) = end_all-Keeps gs db (λ k. none) e s (λ k d q. cc) in
      (
        db',
        eq,
        get_signer_config-Holds l laws c codec b badger key db' k d
            (kept k d (promise_all_lem (λ j. none) k d (outcomes_of gs) distinct there)),
      )

module _ (l : Libs) (laws : LibLaws l) (c : Codec) (codec : CodecLaws c) (b : Badger c.Doc)
    (badger : BadgerLaws b) (key : PrivateKey) (a : Alice) where
  -- What a node needs of its outcome to sign: it is well-formed, the point is one that alice accepts and has
  -- the public key of the request, and alice makes a signer of it.
  pub record SignsWith (paillier : a.Paillier) (request : SignRequest) (d : DkgOutcome)
      (m : a.signing.M) : Type 0 where
    pub good : IsOutcome d
    pub curve : l.new_ec_point d.public_key.x d.public_key.y ≡ ok d.public_key
    pub same_key : pubkey_text l d ≡ request.pubkey
    pub made : a.new_signer paillier d (l.hex_to_bytes request.message) ≡ ok m

  signer_of :
      (paillier : a.Paillier) (request : SignRequest) (d : DkgOutcome) (m : a.signing.M) (db : b.Db)
      → a.new_paillier ≡ ok paillier
      → SignsWith paillier request d m
      → get_signer_config l c b key db request.hash request.pubkey ≡ ok (signer_config_of d)
      → Signs l a (badger_handler l c b key) db request m
  unfolding create_signer
  signer_of paillier request d m db primes s there = (
    signer_config_of d,
    there,
    rw (primes, convert_dkg_result_lem l d s.good.keys s.curve) s.made,
  )

  -- From the key generation of the self service to its signing, over a badger store: key generations of one
  -- process, under distinct hashes, each with an open channel and with an outcome whose numbers are natural,
  -- whose peers have distinct ASCII names and whose ranks are below 2 ^ 32, end done one after the other, each
  -- saving before the next one ends, and no save reports an error. Where Paillier's key is made, and one of
  -- them has the hash of the request with the number of a node, and an outcome with the public key of the
  -- request, on a point that alice accepts, of which alice makes a signer: that node finds in the store what it
  -- needs for the request, and makes that signer.
  pub self_dkg_then_sign :
      (paillier : a.Paillier) (gs : List (Generated a.keygen.M)) (db : b.Db) (request : SignRequest)
      (i : ℕ) (d : DkgOutcome) (m : a.signing.M)
      → a.new_paillier ≡ ok paillier
      → AtEnd a.keygen.get_result gs
      → IsMap (outcomes_of gs)
      → AllSaved a.keygen (badger_handler l c b key) gs db
      → lookup (node_id request.hash i) (outcomes_of gs) ≡ some d
      → SignsWith paillier request d m
      → (db' : b.Db) × (end_all a.keygen (badger_handler l c b key) gs db ≡ ok db')
        × Signs l a (badger_handler l c b key) db' (node_request request i) m
  self_dkg_then_sign paillier gs db request i d m primes e distinct saved there s =
      let (db', eq, answers) =
        end_all_shares l laws c codec b badger key a.keygen gs db (node_id request.hash i) d e
          distinct saved there in
      (
        db',
        eq,
        signer_of paillier (node_request request i) d m db' primes
            (record { good = s.good; curve = s.curve; same_key = s.same_key; made = s.made })
            (rw (← s.same_key) answers),
      )
