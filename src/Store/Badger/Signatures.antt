-- ===== src/Store/Badger/Signatures.antt =====
-- The signatures in the badger store of store/badger_handler.go, which stand under the hashes of their
-- messages beside the outcomes.
use alice_tss.Base.{◌≡◌, refl, false, Text, text_eq, Done, ok, err, panic}
use alice_tss.Types.{RvSignature}
use alice_tss.Libs.{Libs, LibLaws, PrivateKey, DkgOutcome}
use alice_tss.Store.Backend.{Codec, CodecLaws, Badger, BadgerLaws}
use alice_tss.Store.Badger.{save_signer_result_data}
use alice_tss.Store.Badger.Promise.{sign}
use alice_tss.Store.Badger.Refine.{Holds, write, write_ne, write_failed, ne-Holds}
use alice_tss.Store.Badger.Steady.{Steady, sign_steady}

module _ (l : Libs) (laws : LibLaws l) (c : Codec) (codec : CodecLaws c) (b : Badger c.Doc)
    (badger : BadgerLaws b) (key : PrivateKey) (steady : Steady c b) where
  save_of :
      (db : b.Db) (j k : Text) (g : RvSignature) (d : DkgOutcome) (r : Done)
      → (save_signer_result_data l c b key db k g).0 ≡ r
      → text_eq k j ≡ false
      → Holds l laws c codec b badger key db j d
      → Holds l laws c codec b badger key (save_signer_result_data l c b key db k g).1 j d
  unfolding write
  save_of db j k g d (ok tt) e ne h =
      ne-Holds l laws c codec b badger key db _ j d
        (write_ne l laws c codec b badger key db j (sign k g) ne e) h
  save_of db j k g d (err x) e ne h =
      rw (write_failed l laws c codec b badger key db (sign k g) x e) h
  save_of db j k g d (panic x) e ne h =
      absurd (sign_steady l laws c codec b badger key steady db k g x e)

  -- The save of a signature under another hash leaves an outcome where it is, whether it succeeds or not.
  pub save_signer_result_data-Holds :
      (db : b.Db) (j k : Text) (g : RvSignature) (d : DkgOutcome)
      → text_eq k j ≡ false
      → Holds l laws c codec b badger key db j d
      → Holds l laws c codec b badger key (save_signer_result_data l c b key db k g).1 j d
  save_signer_result_data-Holds db j k g d ne h = save_of db j k g d _ refl ne h
