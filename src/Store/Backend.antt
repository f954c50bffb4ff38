-- ===== src/Store/Backend.antt =====
-- What the store takes from its libraries: the text form of JSON documents, and the database badger
-- with its transactions.
use alice_tss.Base.{
  ℕ, ◌<◌, ◌≡◌, Bool, true, false, Option, none, some, Text, text_eq, Result, ok, err, lib, Error,
  if◌then◌else◌,
}
use alice_tss.Json.{Json, IsPlain}

-- encoding/json: `Doc` is the text of a document, `size` its length in bytes.
pub record Codec : Type 1 where
  pub Doc : Type 0
  pub marshal : Json → Result Doc
  pub unmarshal : Doc → Result Json
  pub size : Doc → ℕ

pub record CodecLaws (c : Codec) : Type 0 where
  -- A document of ASCII strings and exact numbers has a text, which reads back as it.
  pub text : (v : Json) → IsPlain v → c.Doc
  pub marshal_lem : (v : Json) (p : IsPlain v) → c.marshal v ≡ ok (text v p)
  pub unmarshal_lem : (v : Json) (p : IsPlain v) → c.unmarshal (text v p) ≡ ok v
  pub size_pos : (v : Json) (p : IsPlain v) → 0 < c.size (text v p)

-- badger, storing values of the type `D`. A transaction works on a snapshot until it is committed.
pub record Badger (D : Type 0) : Type 1 where
  pub Db : Type 0
  pub Txn : Type 0
  pub Item : Type 0
  pub new_transaction : Db → Bool → Txn
  pub txn_get : Txn → Text → Result Item
  pub item_value : Item → Result D
  pub txn_set : Txn → Text → D → Result Txn
  pub txn_delete : Txn → Text → Result Txn
  pub commit : Db → Txn → Result (Unit {0}) × Db
  pub open_db : Text → Result Db
  pub close_db : Db → Result (Unit {0})

-- `badger.ErrKeyNotFound`
abbrev pub key_not_found : Error
key_not_found = lib 10

-- The contract of badger, by what is stored under each key.
pub record BadgerLaws {D : Type 0} (b : Badger D) : Type 0 where
  pub stored : b.Db → Text → Option D
  pub item_of : b.Db → Text → D → b.Item
  -- a key that is there is read, one that is not gives `ErrKeyNotFound`
  pub get_present :
      (db : b.Db) (k : Text) {d : D}
      → stored db k ≡ some d
      → b.txn_get (b.new_transaction db false) k ≡ ok (item_of db k d)
  pub item_lem : (db : b.Db) (k : Text) (d : D) → b.item_value (item_of db k d) ≡ ok d
  pub get_absent :
      (db : b.Db) (k : Text)
      → stored db k ≡ none
      → b.txn_get (b.new_transaction db false) k ≡ err key_not_found
  -- a committed write changes its key and no other, a failed commit nothing
  pub set_commit :
      (db : b.Db) (k : Text) (d : D) {t : b.Txn}
      → b.txn_set (b.new_transaction db true) k d ≡ ok t
      → (b.commit db t).0 ≡ ok tt
      → (j : Text) → stored (b.commit db t).1 j ≡ (if text_eq k j then some d else stored db j)
  pub delete_commit :
      (db : b.Db) (k : Text) {t : b.Txn}
      → b.txn_delete (b.new_transaction db true) k ≡ ok t
      → (b.commit db t).0 ≡ ok tt
      → (j : Text) → stored (b.commit db t).1 j ≡ (if text_eq k j then none else stored db j)
  pub commit_failed :
      (db : b.Db) (t : b.Txn) {e : Error} → (b.commit db t).0 ≡ err e → (b.commit db t).1 ≡ db
