-- ===== src/Store/Badger/Refine.antt =====
-- The badger store against what it promises: for each hash, the outcome that was last put there.
use alice_tss.Base.{
  ◌≡◌, refl, ◌∙◌, sym, false, some, Text, text_eq, text_eq→eq, text_eq_refl, Result, Done, ok, err,
  panic, Bool-cases, inl, inr, Error, All, ◌<◌, Option-cases, subst,
}
use mathlib.Core.Option.{some-injective}
use alice_tss.Types.{DkgResult}
use alice_tss.Libs.{Libs, LibLaws, PrivateKey, DkgOutcome, ReshareOutcome}
use alice_tss.Json.{Json}
use alice_tss.Wire.{dkg_json}
use alice_tss.Utils.Encrypto.{encrypt, decrypt, decrypt-encrypt}
use alice_tss.Store.Backend.{Codec, CodecLaws, Badger, BadgerLaws}
use alice_tss.Store.Fsm.{get, set}
use alice_tss.Store.Fsm.Laws.{get-set_ne, set_failed}
use alice_tss.Store.Badger.{
  then_db, pubkey_text, share_text, dkg_record, save_dkg_result_data, get_dkg_result_data,
  get_signer_config, update_dkg_result_data, save_signer_result_data,
}
use alice_tss.Store.Badger.Promise.{Write, save, update, sign, Promise, promise_after, IsGood}
use alice_tss.Store.Badger.RoundTrip.{
  IsOutcome, IsNatural, signer_config_of, share_text-IsAscii, key_good, salt_long, get_dkg-set,
  dkg_record-IsStorable, open_config-dkg_record,
}

module _ (l : Libs) (laws : LibLaws l) (c : Codec) (codec : CodecLaws c) (b : Badger c.Doc)
    (badger : BadgerLaws b) (key : PrivateKey) where
  unfoldable pub write : b.Db → Write → Done × b.Db
  write db (save k d) = save_dkg_result_data l c b key db k d
  write db (update k r) = update_dkg_result_data l c b key db k r
  write db (sign k g) = save_signer_result_data l c b key db k g

  -- The outcome is in the store: its record, around a share that opens to its share.
  pub record Holds (db : b.Db) (k : Text) (d : DkgOutcome) : Type 0 where
    pub sealed : Text
    pub outcome : IsOutcome d
    pub record_there : get_dkg_result_data l c b key db k ≡ ok (dkg_record l d sealed)
    pub opens : decrypt l sealed (l.from_ecdsa key) (pubkey_text l d) ≡ ok (share_text l d.share)

  -- The store keeps a promise: each outcome promised is there.
  abbrev pub Keeps : b.Db → Promise → Type 0
  Keeps db p = (k : Text) (d : DkgOutcome) → p k ≡ some d → Holds db k d

  -- What is there answers a request for its signing configuration.
  pub get_signer_config-Holds :
      (db : b.Db) (k : Text) (d : DkgOutcome)
      → Holds db k d
      → get_signer_config l c b key db k (pubkey_text l d) ≡ ok (signer_config_of d)
  unfolding get_signer_config
  get_signer_config-Holds db k d h =
      rw h.record_there
        (open_config-dkg_record l laws c codec b badger key d h.sealed h.outcome h.opens)

  -- A record that was set for an outcome, around its sealed share, holds it.
  set-Holds :
      (db : b.Db) (k : Text) (d : DkgOutcome) (sealed : Text)
      → IsOutcome d
      → All (λ a. a < 128) sealed
      → decrypt l sealed (l.from_ecdsa key) (pubkey_text l d) ≡ ok (share_text l d.share)
      → (set c b db k (dkg_json l (dkg_record l d sealed))).0 ≡ ok tt
      → Holds (set c b db k (dkg_json l (dkg_record l d sealed))).1 k d
  set-Holds db k d sealed h ascii dec e = record {
    sealed = sealed;
    outcome = h;
    record_there =
        get_dkg-set l laws c codec b badger key db k (dkg_record l d sealed)
          (dkg_record-IsStorable l laws d sealed h ascii) e;
    opens = dec;
  }

  pub save-Holds :
      (db : b.Db) (k : Text) (d : DkgOutcome)
      → IsOutcome d
      → (save_dkg_result_data l c b key db k d).0 ≡ ok tt
      → Holds (save_dkg_result_data l c b key db k d).1 k d
  unfolding save_dkg_result_data
  save-Holds db k d h e =
      let (sealed, enc, dec, ascii) =
        decrypt-encrypt l laws (share_text l d.share) (l.from_ecdsa key) (pubkey_text l d)
          (share_text-IsAscii l laws c codec b badger key d.share) (key_good l laws key)
          (salt_long l laws d) in
      rw enc (set-Holds db k d sealed h ascii dec (rw enc at e))

  pub update-Holds :
      (db : b.Db) (k : Text) (d : DkgOutcome) (r : ReshareOutcome)
      → IsNatural r.share
      → Holds db k d
      → (update_dkg_result_data l c b key db k r).0 ≡ ok tt
      → Holds (update_dkg_result_data l c b key db k r).1 k (record d { share = r.share })
  unfolding update_dkg_result_data dkg_record
  update-Holds db k d r n h e =
      let d' : DkgOutcome = record d { share = r.share } in
      let (sealed, enc, dec, ascii) =
        decrypt-encrypt l laws (share_text l r.share) (l.from_ecdsa key) (pubkey_text l d)
          (share_text-IsAscii l laws c codec b badger key r.share) (key_good l laws key)
          (salt_long l laws d) in
      let o : IsOutcome d' = record {
        x = h.outcome.x;
        y = h.outcome.y;
        share = n;
        keys = h.outcome.keys;
        texts = h.outcome.texts;
        ranks = h.outcome.ranks;
      } in
      rw (h.record_there, enc)
        (set-Holds db k d' sealed o ascii dec (rw (h.record_there, enc) at e))

  -- A write to one hash leaves the outcome under another where it is.
  pub ne-Holds :
      (db db' : b.Db) (j : Text) (d : DkgOutcome)
      → get c b db' j ≡ get c b db j
      → Holds db j d
      → Holds db' j d
  unfolding get_dkg_result_data
  ne-Holds db db' j d e h = record {
    sealed = h.sealed;
    outcome = h.outcome;
    record_there = rw e h.record_there;
    opens = h.opens;
  }

  then_db_ne :
      {A : Type 0} (db : b.Db) (j : Text) (r : Result A) (f : A → Done × b.Db)
      → ((a : A) → (f a).0 ≡ ok tt → get c b (f a).1 j ≡ get c b db j)
      → (then_db r db f).0 ≡ ok tt
      → get c b (then_db r db f).1 j ≡ get c b db j
  then_db_ne db j (ok a) f h e = h a e
  then_db_ne db j (err x) f h e = refl
  then_db_ne db j (panic x) f h e = refl

  -- The new share under the old public key, and the record with it.
  abbrev reseal : DkgResult → ReshareOutcome → Result Text
  reseal old r = encrypt l (share_text l r.share) (l.from_ecdsa key) old.public_key

  abbrev resealed : DkgResult → Text → Json
  resealed old sealed = dkg_json l (record old { share = sealed })

  abbrev pub target : Write → Text
  target (save k d) = k
  target (update k r) = k
  target (sign k g) = k

  pub write_ne :
      (db : b.Db) (j : Text) (w : Write)
      → text_eq (target w) j ≡ false
      → (write db w).0 ≡ ok tt
      → get c b (write db w).1 j ≡ get c b db j
  unfolding write save_dkg_result_data update_dkg_result_data save_signer_result_data
  write_ne db j (save k d) ne e =
      then_db_ne db j _ _ (λ sealed. get-set_ne c b badger db k j _ ne) e
  write_ne db j (update k r) ne e =
      then_db_ne db j (get_dkg_result_data l c b key db k) _
        (λ old.
          then_db_ne db j (reseal old r) _
            (λ sealed. get-set_ne c b badger db k j (resealed old sealed) ne))
        e
  write_ne db j (sign k g) ne e = get-set_ne c b badger db k j _ ne e

  then_db_failed :
      {A : Type 0} (db : b.Db) (r : Result A) (f : A → Done × b.Db) {x : Error}
      → ((a : A) → (f a).0 ≡ err x → (f a).1 ≡ db)
      → (then_db r db f).0 ≡ err x
      → (then_db r db f).1 ≡ db
  then_db_failed db (ok a) f h e = h a e
  then_db_failed db (err y) f h e = refl
  then_db_failed db (panic y) f h e = refl

  -- A write that returns an error, from the read, the encryption, the encoding or the database, has
  -- changed nothing.
  pub write_failed :
      (db : b.Db) (w : Write) (x : Error) → (write db w).0 ≡ err x → (write db w).1 ≡ db
  unfolding write save_dkg_result_data update_dkg_result_data save_signer_result_data
  write_failed db (save k d) x e = then_db_failed db _ _ (λ sealed. set_failed c b badger db k _) e
  write_failed db (update k r) x e =
      then_db_failed db (get_dkg_result_data l c b key db k) _
        (λ old.
          then_db_failed db (reseal old r) _
            (λ sealed. set_failed c b badger db k (resealed old sealed)))
        e
  write_failed db (sign k g) x e = set_failed c b badger db k _ e

  write_self :
      (db : b.Db) (p : Promise) (w : Write) (d : DkgOutcome)
      → IsGood w
      → Keeps db p
      → (write db w).0 ≡ ok tt
      → promise_after p w (target w) ≡ some d
      → Holds (write db w).1 (target w) d
  unfolding write promise_after
  write_self db p (save k d) d' g h e q =
      subst (λ z. Holds (write db (save k d)).1 k z) (some-injective _ _ (rw text_eq_refl at q))
        (save-Holds db k d g e)
  write_self db p (update k r) d' g h e q = elim (Option-cases (p k)) [
    | inl absent ↦ cc (rw (text_eq_refl, absent) at q)
    | inr (d, there) ↦
        subst (λ z. Holds (write db (update k r)).1 k z)
          (some-injective _ _ (rw (text_eq_refl k, there) at q))
          (update-Holds db k d r g (h k d there) e)
  ]
  write_self db p (sign k g) d' _ h e q = cc (rw (text_eq_refl k) at q)

  promise_ne :
      (p : Promise) (w : Write) (j : Text)
      → text_eq (target w) j ≡ false
      → promise_after p w j ≡ p j
  unfolding promise_after
  promise_ne p (save k d) j ne = rw ne
  promise_ne p (update k r) j ne = rw ne
  promise_ne p (sign k g) j ne = rw ne

  -- On a store that keeps every promise, a write that reports no error, of an outcome whose numbers
  -- are natural, whose peers have distinct ASCII names and whose ranks are below 2 ^ 32, of a
  -- natural share, or of any signature, leaves a store that keeps every promise, the new one
  -- included: each outcome that is promised is there, around a share that opens to its share.
  pub write-Keeps :
      (db : b.Db) (p : Promise) (w : Write)
      → IsGood w
      → Keeps db p
      → (write db w).0 ≡ ok tt
      → Keeps (write db w).1 (promise_after p w)
  write-Keeps db p w g h e j d q = elim (Bool-cases (text_eq (target w) j)) [
    | inl same ↦
        rw (← text_eq→eq (target w) j same)
          (write_self db p w d g h e (rw (← text_eq→eq (target w) j same) at q))
    | inr ne ↦
        ne-Holds db (write db w).1 j d (write_ne db j w ne e)
          (h j d (sym (promise_ne p w j ne) ∙ q))
  ]
