-- ===== src/Store/Fsm/Laws.antt =====
-- What the operations of the FSM do to the stored values.
use alice_tss.Base.{
  ◌≡◌, refl, ◌∙◌, ap, Bool, true, false, Option, none, some, Text, text_eq, Result, ok, err, ltb,
  if◌then◌else◌, Error, panic, Bool-cases, inl, inr, lt→ltb, sym,
}
use alice_tss.Json.{Json, IsPlain, null}
use alice_tss.Store.Backend.{Codec, CodecLaws, Badger, BadgerLaws, key_not_found}
use alice_tss.Store.Fsm.{get, set, delete, put, finish, put_text}

module _ (c : Codec) (b : Badger c.Doc) (badger : BadgerLaws b) where
  -- The value that a stored text stands for.
  abbrev pub decoded : Option c.Doc → Result Json
  decoded none = err key_not_found
  decoded (some d) = if ltb 0 (c.size d) then c.unmarshal d else ok null

  get_of :
      (db : b.Db) (k : Text) (o : Option c.Doc) → badger.stored db k ≡ o → get c b db k ≡ decoded o
  unfolding get
  get_of db k none e = rw (badger.get_absent db k e)
  get_of db k (some d) e = rw (badger.get_present db k e, badger.item_lem db k d)

  -- `Get` depends on the value under its key alone.
  pub get-eq-decoded : (db : b.Db) (k : Text) → get c b db k ≡ decoded (badger.stored db k)
  get-eq-decoded db k = get_of db k (badger.stored db k) refl

  -- A write that reports no error has put the text under its key, and nothing else has changed.
  finish_stored :
      (db : b.Db) (k : Text) (d : c.Doc) (r : Result b.Txn)
      → b.txn_set (b.new_transaction db true) k d ≡ r
      → (finish c b db r).0 ≡ ok tt
      → (j : Text)
      → badger.stored (finish c b db r).1 j ≡ (if text_eq k j then some d else badger.stored db j)
  finish_stored db k d (ok t) e h j = badger.set_commit db k d e h j
  finish_stored db k d (err x) e h j = cc
  finish_stored db k d (panic x) e h j = cc

  put_stored :
      (db : b.Db) (k : Text) (d : c.Doc)
      → (put c b db k d).0 ≡ ok tt
      → (j : Text)
      → badger.stored (put c b db k d).1 j ≡ (if text_eq k j then some d else badger.stored db j)
  unfolding put
  put_stored db k d h j = finish_stored db k d (b.txn_set (b.new_transaction db true) k d) refl h j

  finish_failed :
      (db : b.Db) (r : Result b.Txn) {e : Error}
      → (finish c b db r).0 ≡ err e
      → (finish c b db r).1 ≡ db
  finish_failed db (ok t) h = badger.commit_failed db t h
  finish_failed db (err x) h = refl
  finish_failed db (panic x) h = refl

  put_failed :
      (db : b.Db) (k : Text) (d : c.Doc) {e : Error}
      → (put c b db k d).0 ≡ err e
      → (put c b db k d).1 ≡ db
  unfolding put
  put_failed db k d h = finish_failed db (b.txn_set (b.new_transaction db true) k d) h

  put_text_failed :
      (db : b.Db) (k : Text) (r : Result c.Doc) {e : Error}
      → (put_text c b db k r).0 ≡ err e
      → (put_text c b db k r).1 ≡ db
  put_text_failed db k (ok d) h = elim (Bool-cases (ltb 0 (c.size d))) [
    | inl t ↦ rw t (put_failed db k d (rw t at h))
    | inr f ↦ rw f
  ]
  put_text_failed db k (err x) h = refl
  put_text_failed db k (panic x) h = refl

  -- A `Set` that fails, in the encoding or in the database, leaves the database as it was.
  pub set_failed :
      (db : b.Db) (k : Text) (v : Json) {e : Error}
      → (set c b db k v).0 ≡ err e
      → (set c b db k v).1 ≡ db
  unfolding set
  set_failed db k v h = put_text_failed db k (c.marshal v) h

  module _ (codec : CodecLaws c) where
    set-eq-put :
        (db : b.Db) (k : Text) (v : Json) (p : IsPlain v)
        → set c b db k v ≡ put c b db k (codec.text v p)
    unfolding set
    set-eq-put db k v p = rw (codec.marshal_lem v p) (rw (lt→ltb _ _ (codec.size_pos v p)))

    decoded-text : (v : Json) (p : IsPlain v) → decoded (some (codec.text v p)) ≡ ok v
    decoded-text v p = rw (lt→ltb _ _ (codec.size_pos v p)) (codec.unmarshal_lem v p)

    decoded-if :
        (t : Bool) (x y : Option c.Doc)
        → decoded (if t then x else y) ≡ (if t then decoded x else decoded y)
    decoded-if true x y = refl
    decoded-if false x y = refl

    -- After a `Set` that reports no error, of a value with ASCII strings and exact numbers, `Get` of
    -- its key gives the value and `Get` of any other key what it gave before.
    pub get-set :
        (db : b.Db) (k : Text) (v : Json)
        → IsPlain v
        → (set c b db k v).0 ≡ ok tt
        → (j : Text) → get c b (set c b db k v).1 j ≡ (if text_eq k j then ok v else get c b db j)
    get-set db k v p h j =
        get-eq-decoded (set c b db k v).1 j
        ∙ ap decoded (
            rw (set-eq-put db k v p)
              (put_stored db k (codec.text v p) (rw (set-eq-put db k v p) at h) j))
        ∙ decoded-if (text_eq k j) (some (codec.text v p)) (badger.stored db j)
        ∙ rw (decoded-text v p, get-eq-decoded db j)

  put_text_ne :
      (db : b.Db) (k j : Text) (r : Result c.Doc)
      → text_eq k j ≡ false
      → (put_text c b db k r).0 ≡ ok tt
      → badger.stored (put_text c b db k r).1 j ≡ badger.stored db j
  put_text_ne db k j (ok d) ne h = elim (Bool-cases (ltb 0 (c.size d))) [
    | inl t ↦ rw t (put_stored db k d (rw t at h) j ∙ rw ne)
    | inr f ↦ rw f
  ]
  put_text_ne db k j (err x) ne h = refl
  put_text_ne db k j (panic x) ne h = refl

  -- A `Set`, of whatever value, leaves every other key alone.
  pub get-set_ne :
      (db : b.Db) (k j : Text) (v : Json)
      → text_eq k j ≡ false
      → (set c b db k v).0 ≡ ok tt
      → get c b (set c b db k v).1 j ≡ get c b db j
  unfolding set
  get-set_ne db k j v ne h =
      get-eq-decoded (set c b db k v).1 j
      ∙ ap decoded (put_text_ne db k j (c.marshal v) ne h)
      ∙ sym (get-eq-decoded db j)

  delete_of :
      (db : b.Db) (k : Text) (r : Result b.Txn)
      → b.txn_delete (b.new_transaction db true) k ≡ r
      → (finish c b db r).0 ≡ ok tt
      → (j : Text)
      → badger.stored (finish c b db r).1 j ≡ (if text_eq k j then none else badger.stored db j)
  delete_of db k (ok t) e h j = badger.delete_commit db k e h j
  delete_of db k (err x) e h j = cc
  delete_of db k (panic x) e h j = cc

  decoded_absent :
      (t : Bool) (x : Option c.Doc)
      → decoded (if t then none else x) ≡ (if t then err key_not_found else decoded x)
  decoded_absent true x = refl
  decoded_absent false x = refl

  -- After a `Delete` that reports no error its key is not found, and any other key gives what it gave.
  pub get-delete :
      (db : b.Db) (k : Text)
      → (delete c b db k).0 ≡ ok tt
      → (j : Text)
      → get c b (delete c b db k).1 j ≡ (if text_eq k j then err key_not_found else get c b db j)
  unfolding delete
  get-delete db k h j =
      get-eq-decoded (delete c b db k).1 j
      ∙ ap decoded (delete_of db k (b.txn_delete (b.new_transaction db true) k) refl h j)
      ∙ decoded_absent (text_eq k j) (badger.stored db j)
      ∙ rw (get-eq-decoded db j)
