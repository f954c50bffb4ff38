-- ===== src/Store/Badger/RoundTrip.antt =====
-- What badger_handler.go gives back of what it stored.
use alice_tss.Base.{
  ◌≤◌, ◌<◌, ◌^◌, ◌≡◌, refl, ◌∙◌, sym, [], ◌∷◌, Text, Bytes, text_eq_refl, Dict, IsMap, All, length,
  map_values, copy_map_lem, ok, arith, inr, ◌*◌, Fresh,
}
use alice_tss.Types.{DkgResult, SignerConfig}
use alice_tss.Libs.{Libs, LibLaws, PrivateKey, BkParameter, DkgOutcome}
use alice_tss.Codec.BigInt.{
  ℤ, pos, magnitude, int_bytes, int_string, set_bytes-int_bytes, int_string-IsAscii,
  int_bytes-IsBytes,
}
use alice_tss.Codec.Hex.{hex_encode, hex_encode-IsAscii}
use alice_tss.Json.{IsAscii}
use alice_tss.Wire.{dkg_json, read_dkg-dkg_json, IsStorable, dkg_json-IsPlain}
use alice_tss.Utils.Encrypto.{decrypt, decrypt-encrypt, IsKeySize}
use alice_tss.Utils.Convert.{write_bk}
use alice_tss.Store.Backend.{Codec, CodecLaws, Badger, BadgerLaws}
use alice_tss.Store.Fsm.{get, set}
use alice_tss.Store.Fsm.Laws.{get-set}
use alice_tss.Store.Badger.{
  stored_bk, share_text, hex_of, pubkey_text, dkg_record, big_of_hex, save_dkg_result_data,
  get_dkg_result_data, open_config, get_signer_config,
}

-- A number that is not negative: coordinates and shares are residues.
abbrev pub IsNatural : ℤ → Type 0
IsNatural x = x ≡ pos (magnitude x)

-- What alice's key generation returns: residues, and parameters under distinct ASCII peer ids with
-- ranks of the type uint32.
pub record IsOutcome (d : DkgOutcome) : Type 0 where
  pub x : IsNatural d.public_key.x
  pub y : IsNatural d.public_key.y
  pub share : IsNatural d.share
  pub keys : IsMap d.bks
  pub texts : All (λ e. IsAscii e.0) d.bks
  pub ranks : All (λ e. e.1.rank < 2 ^ 32) d.bks

length-hex_encode : (b : Bytes) → length (hex_encode b) ≡ 2 * length b
unfolding hex_encode
length-hex_encode [] = refl
length-hex_encode (x ∷ b) = omega (arith, length-hex_encode b)

-- Entries keep their keys.
Fresh-map_values : (k : Text) (m : Dict BkParameter) → Fresh k m → Fresh k (map_values stored_bk m)
Fresh-map_values k [] h = tt
Fresh-map_values k ((j, p) ∷ m) h = (h.0, Fresh-map_values k m h.1)

IsMap-map_values : (m : Dict BkParameter) → IsMap m → IsMap (map_values stored_bk m)
IsMap-map_values [] h = tt
IsMap-map_values ((j, p) ∷ m) h = (Fresh-map_values j m h.0, IsMap-map_values m h.1)

texts-map_values :
    (m : Dict BkParameter)
    → All (λ e. IsAscii e.0) m
    → All (λ e. IsAscii e.0 × IsAscii e.1.x) (map_values stored_bk m)
texts-map_values [] h = tt
texts-map_values ((j, p) ∷ m) h = ((h.0, int_string-IsAscii p.x), texts-map_values m h.1)

ranks-map_values :
    (m : Dict BkParameter)
    → All (λ e. e.1.rank < 2 ^ 32) m
    → All (λ e. e.1.rank < 2 ^ 32) (map_values stored_bk m)
ranks-map_values [] h = tt
ranks-map_values ((j, p) ∷ m) h = (h.0, ranks-map_values m h.1)

hex_of-IsAscii : (x : ℤ) → IsAscii (hex_of x)
hex_of-IsAscii x = hex_encode-IsAscii (int_bytes x) (int_bytes-IsBytes x)

module _ (l : Libs) (laws : LibLaws l) where
  big_of_hex-hex_of : (x : ℤ) → IsNatural x → big_of_hex l (hex_of x) ≡ x
  big_of_hex-hex_of x h =
      rw (laws.from_hex-hex_encode (int_bytes x) (int_bytes-IsBytes x))
        (set_bytes-int_bytes x ∙ sym h)

  pub salt_long : (d : DkgOutcome) → 16 ≤ length (pubkey_text l d)
  salt_long d = omega (
    arith,
    length-hex_encode (l.compress_pubkey d.public_key.x d.public_key.y),
    laws.compress_pubkey-length d.public_key.x d.public_key.y,
  )

  pub key_good : (key : PrivateKey) → IsKeySize (length (l.from_ecdsa key))
  key_good key = inr (inr (laws.from_ecdsa-length key))

  -- The record of an outcome, around a sealed share in ASCII, can be stored.
  pub dkg_record-IsStorable :
      (d : DkgOutcome) (sealed : Text)
      → IsOutcome d
      → IsAscii sealed
      → IsStorable (dkg_record l d sealed)
  unfolding dkg_record
  dkg_record-IsStorable d sealed h a = rw (copy_map_lem stored_bk d.bks h.keys) (record {
    share = a;
    x = hex_of-IsAscii d.public_key.x;
    y = hex_of-IsAscii d.public_key.y;
    public_key =
        hex_encode-IsAscii (l.compress_pubkey d.public_key.x d.public_key.y)
          (laws.compress_pubkey-IsBytes d.public_key.x d.public_key.y);
    address = laws.pubkey_to_address-IsAddress d.public_key.x d.public_key.y;
    texts = texts-map_values d.bks h.texts;
    ranks = ranks-map_values d.bks h.ranks;
    keys = IsMap-map_values d.bks h.keys;
  })

-- The signing configuration of an outcome: what the client of the store asked for.
abbrev pub signer_config_of : DkgOutcome → SignerConfig
signer_config_of d = record {
  share = int_string d.share;
  pubkey = record { x = int_string d.public_key.x; y = int_string d.public_key.y };
  bks = map_values write_bk d.bks;
}

module _ (l : Libs) (laws : LibLaws l) (c : Codec) (codec : CodecLaws c) (b : Badger c.Doc)
    (badger : BadgerLaws b) (key : PrivateKey) where
  pub share_text-IsAscii : (x : ℤ) → All (λ b. b < 256) (share_text l x)
  share_text-IsAscii x =
      rw (laws.bytes_to_hex-eq (int_bytes x)) (widen (hex_of x) (hex_of-IsAscii x))
    where
      widen : (s : Text) → IsAscii s → All (λ b. b < 256) s
      widen [] h = tt
      widen (a ∷ s) h = (omega (arith, h.0), widen s h.1)

  big_of_hex-share_text : (x : ℤ) → IsNatural x → big_of_hex l (share_text l x) ≡ x
  big_of_hex-share_text x h = rw (laws.bytes_to_hex-eq (int_bytes x)) (big_of_hex-hex_of l laws x h)

  -- A stored document of a record is read as the record.
  get_dkg_of :
      (db : b.Db) (hash : Text) (r : DkgResult)
      → IsStorable r
      → get c b db hash ≡ ok (dkg_json l r)
      → get_dkg_result_data l c b key db hash ≡ ok r
  unfolding get_dkg_result_data
  get_dkg_of db hash r h e =
      let p = dkg_json-IsPlain l laws r h in
      rw (e, codec.marshal_lem (dkg_json l r) p, codec.unmarshal_lem (dkg_json l r) p)
        (read_dkg-dkg_json l laws r h.address h.ranks h.keys)

  -- A record that was set is read under its hash.
  pub get_dkg-set :
      (db : b.Db) (hash : Text) (r : DkgResult)
      → IsStorable r
      → (set c b db hash (dkg_json l r)).0 ≡ ok tt
      → get_dkg_result_data l c b key (set c b db hash (dkg_json l r)).1 hash ≡ ok r
  get_dkg-set db hash r h e = get_dkg_of (set c b db hash (dkg_json l r)).1 hash r h (
      get-set c b badger codec db hash (dkg_json l r) (dkg_json-IsPlain l laws r h) e hash
      ∙ rw (text_eq_refl hash))

  pub open_config-dkg_record :
      (d : DkgOutcome) (sealed : Text)
      → IsOutcome d
      → decrypt l sealed (l.from_ecdsa key) (pubkey_text l d) ≡ ok (share_text l d.share)
      → open_config l c b key (dkg_record l d sealed) (pubkey_text l d) ≡ ok (signer_config_of d)
  unfolding open_config dkg_record
  open_config-dkg_record d sealed h e = rw (
    big_of_hex-hex_of l laws d.public_key.x h.x,
    big_of_hex-hex_of l laws d.public_key.y h.y,
    text_eq_refl (pubkey_text l d),
    e,
    big_of_hex-share_text d.share h.share,
    copy_map_lem stored_bk d.bks h.keys,
  )

  -- Saving an outcome whose numbers are natural, whose peers have distinct ASCII names and whose
  -- ranks are below 2 ^ 32, with no error reported, and asking for its signing configuration under
  -- the same hash and its public key, gives the share, the point and the parameters of the outcome
  -- in decimal.
  pub get_signer_config-save_dkg_result_data :
      (db : b.Db) (hash : Text) (d : DkgOutcome)
      → IsOutcome d
      → (save_dkg_result_data l c b key db hash d).0 ≡ ok tt
      → get_signer_config l c b key
          (save_dkg_result_data l c b key db hash d).1
          hash
          (pubkey_text l d)
        ≡ ok (signer_config_of d)
  unfolding save_dkg_result_data get_signer_config
  get_signer_config-save_dkg_result_data db hash d h e =
      let (sealed, enc, dec, ascii) =
        decrypt-encrypt l laws (share_text l d.share) (l.from_ecdsa key) (pubkey_text l d)
          (share_text-IsAscii d.share) (key_good l laws key) (salt_long l laws d) in
      rw enc (
        rw
          (get_dkg-set db hash (dkg_record l d sealed)
            (dkg_record-IsStorable l laws d sealed h ascii) (rw enc at e))
          (open_config-dkg_record d sealed h dec))
