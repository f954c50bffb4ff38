-- ===== src/Store/Badger/Steady.antt =====
-- No write of store/badger_handler.go panics, as long as its libraries do not.
use alice_tss.Base.{◌≢◌, Text, Result, ok, err, panic, Panic, ltb, Bool-cases, inl, inr}
use alice_tss.Types.{RvSignature}
use alice_tss.Libs.{Libs, LibLaws, PrivateKey, DkgOutcome, ReshareOutcome}
use alice_tss.Json.{Json}
use alice_tss.Wire.{dkg_json, signature_json}
use alice_tss.Utils.Encrypto.{decrypt-encrypt}
use alice_tss.Store.Backend.{Codec, CodecLaws, Badger, BadgerLaws}
use alice_tss.Store.Fsm.{finish, put, put_text, set}
use alice_tss.Store.Badger.{
  pubkey_text, share_text, dkg_record, save_dkg_result_data, update_dkg_result_data,
  save_signer_result_data,
}
use alice_tss.Store.Badger.RoundTrip.{share_text-IsAscii, key_good, salt_long}
use alice_tss.Store.Badger.Refine.{Holds}

-- encoding/json and badger report what goes wrong as errors.
pub record Steady (c : Codec) (b : Badger c.Doc) : Type 0 where
  pub marshal_steady : (v : Json) (x : Panic) → c.marshal v ≢ panic x
  pub set_steady : (t : b.Txn) (k : Text) (d : c.Doc) (x : Panic) → b.txn_set t k d ≢ panic x
  pub commit_steady : (db : b.Db) (t : b.Txn) (x : Panic) → (b.commit db t).0 ≢ panic x

module _ (c : Codec) (b : Badger c.Doc) (steady : Steady c b) where
  finish_calm :
      (db : b.Db) (r : Result b.Txn) (x : Panic) → r ≢ panic x → (finish c b db r).0 ≢ panic x
  finish_calm db (ok t) x h = steady.commit_steady db t x
  finish_calm db (err e) x h = λ q. cc
  finish_calm db (panic y) x h = λ q. h cc

  put_text_calm :
      (db : b.Db) (key : Text) (r : Result c.Doc) (x : Panic)
      → r ≢ panic x
      → (put_text c b db key r).0 ≢ panic x
  unfolding put
  put_text_calm db key (ok d) x h = elim (Bool-cases (ltb 0 (c.size d))) [
    | inl t ↦ rw t (finish_calm db _ x (steady.set_steady _ key d x))
    | inr f ↦ rw f (λ q. cc)
  ]
  put_text_calm db key (err e) x h = λ q. cc
  put_text_calm db key (panic y) x h = λ q. h cc

  set_calm : (db : b.Db) (key : Text) (v : Json) (x : Panic) → (set c b db key v).0 ≢ panic x
  unfolding set
  set_calm db key v x = put_text_calm db key (c.marshal v) x (steady.marshal_steady v x)

module _ (l : Libs) (laws : LibLaws l) (c : Codec) (codec : CodecLaws c) (b : Badger c.Doc)
    (badger : BadgerLaws b) (key : PrivateKey) (steady : Steady c b) where
  pub sign_steady :
      (db : b.Db) (k : Text) (g : RvSignature) (x : Panic)
      → (save_signer_result_data l c b key db k g).0 ≢ panic x
  unfolding save_signer_result_data
  sign_steady db k g x = set_calm c b steady db k (signature_json g) x

  -- The cipher, the key and the salt of an outcome are there, so that its share is sealed.
  pub save_steady :
      (db : b.Db) (k : Text) (d : DkgOutcome) (x : Panic)
      → (save_dkg_result_data l c b key db k d).0 ≢ panic x
  unfolding save_dkg_result_data
  save_steady db k d x =
      let (sealed, enc, _, _) =
        decrypt-encrypt l laws (share_text l d.share) (l.from_ecdsa key) (pubkey_text l d)
          (share_text-IsAscii l laws c codec b badger key d.share) (key_good l laws key)
          (salt_long l laws d) in
      rw enc (set_calm c b steady db k (dkg_json l (dkg_record l d sealed)) x)

  -- Under a hash that holds an outcome: its public key is the salt of the new share.
  pub update_steady :
      (db : b.Db) (k : Text) (old : DkgOutcome)
      → Holds l laws c codec b badger key db k old
      → (r : ReshareOutcome) (x : Panic) → (update_dkg_result_data l c b key db k r).0 ≢ panic x
  unfolding update_dkg_result_data dkg_record
  update_steady db k old h r x =
      let (sealed, enc, _, _) =
        decrypt-encrypt l laws (share_text l r.share) (l.from_ecdsa key) (pubkey_text l old)
          (share_text-IsAscii l laws c codec b badger key r.share) (key_good l laws key)
          (salt_long l laws old) in
      rw (h.record_there, enc)
        (set_calm c b steady db k
          (dkg_json l (record (dkg_record l old h.sealed) { share = sealed })) x)
