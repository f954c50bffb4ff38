-- ===== src/Store/Fsm.antt =====
-- store/badger_fsm.go: JSON values under string keys in badger.
pub mod Laws
use alice_tss.Base.{
  ℕ, ◌<◌, ◌≡◌, refl, Bool, true, false, Option, none, some, Text, Done, Result, ok, err, panic,
  ◌>>=◌, type_assertion, ltb, if◌then◌else◌,
}
use alice_tss.Json.{Json, Items, null, arr, nil, cons}
use alice_tss.Store.Backend.{Codec, Badger}

-- The deferred `Commit` of a read changes nothing and its error is dropped. Beside an error the source
-- also returns an empty map, which no caller looks at.
module _ (c : Codec) (b : Badger c.Doc) where
  -- `FSM.Get`
  unfoldable pub get : b.Db → Text → Result Json
  get db key = do
    item ← b.txn_get (b.new_transaction db false) key
    value ← b.item_value item
    if ltb 0 (c.size value) then c.unmarshal value else ok null

  abbrev pub finish : b.Db → Result b.Txn → Done × b.Db
  finish db (ok t) = b.commit db t
  finish db (err e) = (err e, db)
  finish db (panic p) = (panic p, db)

  -- One write in a transaction of its own, which is discarded where the write fails.
  unfoldable pub put : b.Db → Text → c.Doc → Done × b.Db
  put db key d = finish db (b.txn_set (b.new_transaction db true) key d)

  abbrev pub put_text : b.Db → Text → Result c.Doc → Done × b.Db
  put_text db key (ok d) = if ltb 0 (c.size d) then put db key d else (ok tt, db)
  put_text db key (err e) = (err e, db)
  put_text db key (panic p) = (panic p, db)

  -- `FSM.Set`
  unfoldable pub set : b.Db → Text → Json → Done × b.Db
  unfolding put
  set db key value = put_text db key (c.marshal value)

  abbrev append_item : Items → Json → Items
  append_item nil v = cons v nil
  append_item (cons x xs) v = cons x (append_item xs v)

  -- What `SetArr` writes: the list that is there with the value behind it, or the value alone where
  -- nothing is read. What is there and is no list makes the type assertion panic.
  abbrev extended : c.Doc → Json → Result Json → Result c.Doc
  extended fresh value (ok null) = ok fresh
  extended fresh value (ok (arr xs)) = c.marshal (arr (append_item xs value))
  extended fresh value (ok _) = panic type_assertion
  extended fresh value (err e) = ok fresh
  extended fresh value (panic p) = panic p

  abbrev put_doc : b.Db → Text → Result c.Doc → Done × b.Db
  put_doc db key (ok d) = put db key d
  put_doc db key (err e) = (err e, db)
  put_doc db key (panic p) = (panic p, db)

  abbrev set_arr_text : b.Db → Text → Json → Result c.Doc → Done × b.Db
  set_arr_text db key value (ok fresh) =
      if ltb 0 (c.size fresh)
      then put_doc db key (extended fresh value (get db key))
      else (ok tt, db)
  set_arr_text db key value (err e) = (err e, db)
  set_arr_text db key value (panic p) = (panic p, db)

  -- `FSM.SetArr`
  unfoldable pub set_arr : b.Db → Text → Json → Done × b.Db
  unfolding get put
  set_arr db key value = set_arr_text db key value (c.marshal (arr (cons value nil)))

  -- `FSM.Delete`
  unfoldable pub delete : b.Db → Text → Done × b.Db
  delete db key = finish db (b.txn_delete (b.new_transaction db true) key)
