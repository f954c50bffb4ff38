-- ===== src/Store/Badger.antt =====
-- store/badger_handler.go: results under their hash in badger, shares encrypted.
pub mod RoundTrip
pub mod Steady
pub mod Signatures
pub mod Promise
pub mod Refine
use alice_tss.Base.{
  [], Text, text_eq, Dict, copy_map, Result, Done, ok, err, panic, ◌>>=◌, pubkey_not_match,
  open_failed, if◌then◌else◌,
}
use alice_tss.Types.{Bk, DkgResult, SignerConfig, RvSignature}
use alice_tss.Libs.{Libs, PrivateKey, BkParameter, DkgOutcome, ReshareOutcome}
use alice_tss.Codec.BigInt.{ℤ, int_bytes, set_bytes, int_string}
use alice_tss.Codec.Hex.{hex_encode}
use alice_tss.Wire.{dkg_json, signature_json, read_dkg}
use alice_tss.Utils.Encrypto.{encrypt, decrypt}
use alice_tss.Store.Backend.{Codec, Badger}
use alice_tss.Store.Fsm.{get, set}

-- The error returned early, with the database as it is.
abbrev pub then_db : {A S : Type 0} → Result A → S → (A → Done × S) → Done × S
then_db (ok a) db f = f a
then_db (err e) db f = (err e, db)
then_db (panic p) db f = (panic p, db)

-- `types.BK{X: parameter.GetX().String(), Rank: parameter.GetRank()}`
abbrev pub stored_bk : BkParameter → Bk
stored_bk p = record { x = int_string p.x; rank = p.rank }

-- `hex.EncodeToString(x.Bytes())`
abbrev pub hex_of : ℤ → Text
hex_of x = hex_encode (int_bytes x)

module _ (l : Libs) where
  -- The public key of an outcome, compressed, as text.
  abbrev pub pubkey_text : DkgOutcome → Text
  pubkey_text d = hex_encode (l.compress_pubkey d.public_key.x d.public_key.y)

  -- `common.Bytes2Hex(share.Bytes())`
  abbrev pub share_text : ℤ → Text
  share_text x = l.bytes_to_hex (int_bytes x)

  -- The record that is stored for an outcome, around its sealed share.
  unfoldable pub dkg_record : DkgOutcome → Text → DkgResult
  unfolding copy_map
  dkg_record d sealed = record {
    address = l.pubkey_to_address d.public_key.x d.public_key.y;
    share = sealed;
    public_key = pubkey_text d;
    bks = copy_map stored_bk [] d.bks;
    pubkey = record { x = hex_of d.public_key.x; y = hex_of d.public_key.y };
  }

  -- `big.NewInt(0).SetBytes(common.FromHex(s))`
  abbrev pub big_of_hex : Text → ℤ
  big_of_hex s = set_bytes (l.from_hex s)

  module _ (c : Codec) (b : Badger c.Doc) (key : PrivateKey) where
    unfoldable pub save_dkg_result_data : b.Db → Text → DkgOutcome → Done × b.Db
    save_dkg_result_data db hash result =
        then_db (encrypt l (share_text result.share) (l.from_ecdsa key) (pubkey_text result)) db
          (λ sealed. set c b db hash (dkg_json l (dkg_record result sealed)))

    -- What is read is encoded once more, and that text is decoded into the struct.
    unfoldable pub get_dkg_result_data : b.Db → Text → Result DkgResult
    get_dkg_result_data db hash = do
      value ← get c b db hash
      text ← c.marshal value
      document ← c.unmarshal text
      read_dkg l document

    unfoldable pub update_dkg_result_data : b.Db → Text → ReshareOutcome → Done × b.Db
    update_dkg_result_data db hash result = then_db (get_dkg_result_data db hash) db (λ old_dkg.
        then_db (encrypt l (share_text result.share) (l.from_ecdsa key) old_dkg.public_key) db
          (λ sealed. set c b db hash (dkg_json l (record old_dkg { share = sealed }))))

    unfoldable pub save_signer_result_data : b.Db → Text → RvSignature → Done × b.Db
    save_signer_result_data db hash result = set c b db hash (signature_json result)

    -- The configuration that a stored record gives, its share opened.
    abbrev config_of : DkgResult → Text → SignerConfig
    config_of r share = record {
      share = int_string (big_of_hex share);
      pubkey = record {
        x = int_string (big_of_hex r.pubkey.x);
        y = int_string (big_of_hex r.pubkey.y);
      };
      bks = r.bks;
    }

    unfoldable pub open_config : DkgResult → Text → Result SignerConfig
    open_config r pubkey =
        if text_eq (hex_encode (l.compress_pubkey (big_of_hex r.pubkey.x) (big_of_hex r.pubkey.y)))
          pubkey
        then (do share ← decrypt l r.share (l.from_ecdsa key) pubkey; ok (config_of r share))
        else err pubkey_not_match

    unfoldable pub get_signer_config : b.Db → Text → Text → Result SignerConfig
    unfolding open_config
    get_signer_config db hash pubkey = do
      result_dkg ← get_dkg_result_data db hash
      open_config result_dkg pubkey

    -- `Defer` closes the database and drops the error.
    unfoldable pub defer_badger : b.Db → Done
    defer_badger db = elim (b.close_db db) [ ok _ ↦ ok tt | err _ ↦ ok tt | panic p ↦ panic p ]

    -- `NewBadgerDB` panics where the directory cannot be opened.
    unfoldable pub new_badger_db : Text → Result b.Db
    new_badger_db dir = elim (b.open_db dir) [
      | ok db ↦ ok db
      | err _ ↦ panic open_failed
      | panic p ↦ panic p
    ]
