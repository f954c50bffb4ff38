-- ===== src/Tests/Toys.antt =====
-- Concrete functions that meet the laws assumed of the libraries.
use alice_tss.Base.{
  ◌≡◌, refl, ap, Bool, true, false, Option, none, some, [], ◌∷◌, Bytes, Text, codes, text_eq, Dict,
  ◌==◌, lookup, insert, erase, lookup-insert, lookup-erase, Result, ok, err, lib, arith,
  if◌then◌else◌,
}
use alice_tss.Libs.{Libs, LibLaws, DkgOutcome, PrivateKey}
use alice_tss.Codec.BigInt.{ℤ, pos}
use alice_tss.Codec.Hex.{hex_encode, hex_decode, hex_decode-hex_encode, hex_encode-IsAscii}
use alice_tss.Json.{Json}
use alice_tss.Store.Backend.{Codec, CodecLaws, Badger, BadgerLaws, key_not_found}
use alice_tss.Store.Badger.RoundTrip.{IsOutcome}

abbrev or_empty : Option Bytes → Bytes
or_empty none = []
or_empty (some b) = b

abbrev pub sixteen : Bytes
sixteen = 3 ∷ 1 ∷ 4 ∷ 1 ∷ 5 ∷ 9 ∷ 2 ∷ 6 ∷ 5 ∷ 3 ∷ 5 ∷ 8 ∷ 9 ∷ 7 ∷ 9 ∷ 3 ∷ []

abbrev pub thirty_two : Bytes
thirty_two =
    3 ∷ 1 ∷ 4 ∷ 1 ∷ 5 ∷ 9 ∷ 2 ∷ 6 ∷ 5 ∷ 3 ∷ 5 ∷ 8 ∷ 9 ∷ 7 ∷ 9 ∷ 3 ∷ 3 ∷ 1 ∷ 4 ∷ 1 ∷ 5 ∷ 9 ∷ 2 ∷ 6
    ∷ 5 ∷ 3 ∷ 5 ∷ 8 ∷ 9 ∷ 7 ∷ 9 ∷ 3 ∷ []

abbrev verify_toy : ℤ → Bool
verify_toy (pos x) = if x == 0 then false else true
verify_toy _ = true

abbrev pub toy_libs : Libs
toy_libs = record {
  bytes_to_hex = hex_encode;
  from_hex = λ s. or_empty (hex_decode s);
  hex_to_bytes = λ s. or_empty (hex_decode s);
  keccak256 = λ b. b;
  from_ecdsa = λ k. thirty_two;
  compress_pubkey = λ x y. 2 ∷ thirty_two;
  decompress_pubkey = λ b. ok (record { x = pos 5; y = pos 7 });
  pubkey_to_address = λ x y. 5 ∷ 5 ∷ 5 ∷ 5 ∷ sixteen;
  address_text = hex_encode;
  address_string = hex_encode;
  parse_address = λ s. ok (or_empty (hex_decode s));
  new_ec_point = λ x y. ok (record { x = x; y = y });
  aes_block = λ k b. sixteen;
  scalar_base_mult = λ b. ok (record { x = pos 5; y = pos 7 });
  ecdsa_verify = λ p m r s. verify_toy r;
}

pub toy_laws : LibLaws toy_libs
toy_laws = record {
  bytes_to_hex-eq = λ b. refl;
  from_hex-hex_encode = λ b h. ap or_empty (hex_decode-hex_encode b h);
  from_ecdsa-length = λ k. refl;
  compress_pubkey-length = λ x y. refl;
  compress_pubkey-IsBytes = λ x y. omega arith;
  pubkey_to_address-IsAddress = λ x y. (refl, omega arith);
  address_text-IsAscii = λ a h. hex_encode-IsAscii a h.1;
  parse_address-address_text = λ a h. ap (λ o. ok (or_empty o)) (hex_decode-hex_encode a h.1);
  aes_block-IsBytes = λ k b. omega arith;
}

abbrev pub toy_codec : Codec
toy_codec = record { Doc = Json; marshal = ok; unmarshal = ok; size = λ d. 1 }

pub toy_codec_laws : CodecLaws toy_codec
toy_codec_laws = record {
  text = λ v p. v;
  marshal_lem = λ v p. refl;
  unmarshal_lem = λ v p. refl;
  size_pos = λ v p. omega arith;
}

abbrev or_missing : Option Json → Result Json
or_missing none = err key_not_found
or_missing (some d) = ok d

abbrev pub toy_badger : Badger Json
toy_badger = record {
  Db = Dict Json;
  Txn = Dict Json;
  Item = Json;
  new_transaction = λ db w. db;
  txn_get = λ t k. or_missing (lookup k t);
  item_value = ok;
  txn_set = λ t k d. ok (insert k d t);
  txn_delete = λ t k. ok (erase k t);
  commit = λ db t. (ok tt, t);
  open_db = λ dir. ok [];
  close_db = λ db. ok tt;
}

set_lem :
    (db : Dict Json) (k : Text) (d : Json) {t : Dict Json}
    → ◌≡◌ {A = Result (Dict Json)} (ok (insert k d db)) (ok t)
    → (j : Text) → lookup j t ≡ (if text_eq k j then some d else lookup j db)
set_lem db k d {t} e j = let e' : insert k d db ≡ t = cc in rw (← e') (lookup-insert k j d db)

delete_lem :
    (db : Dict Json) (k : Text) {t : Dict Json}
    → ◌≡◌ {A = Result (Dict Json)} (ok (erase k db)) (ok t)
    → (j : Text) → lookup j t ≡ (if text_eq k j then none else lookup j db)
delete_lem db k {t} e j = let e' : erase k db ≡ t = cc in rw (← e') (lookup-erase k j db)

pub toy_badger_laws : BadgerLaws toy_badger
toy_badger_laws = record {
  stored = λ db k. lookup k db;
  item_of = λ db k d. d;
  get_present = λ db k e. ap or_missing e;
  item_lem = λ db k d. refl;
  get_absent = λ db k e. ap or_missing e;
  set_commit = λ db k d e h. set_lem db k d e;
  delete_commit = λ db k e h. delete_lem db k e;
  commit_failed = λ db t h. cc;
}

abbrev pub toy_key : PrivateKey
toy_key = record { d = pos 42 }

abbrev pub toy_outcome : DkgOutcome
toy_outcome = record {
  public_key = record { x = pos 5; y = pos 700 };
  share = pos 12345678901234567890;
  bks =
      (codes "QmA", record { x = pos 1; rank = 0 })
      ∷ (codes "QmB", record { x = pos 77; rank = 1 })
      ∷ [];
}

pub toy_outcome-IsOutcome : IsOutcome toy_outcome
toy_outcome-IsOutcome = record {
  x = refl;
  y = refl;
  share = refl;
  keys = ((refl, tt), (tt, tt));
  texts = omega arith;
  ranks = omega arith;
}

-- A database on a full disk: every write fails.
abbrev pub full_badger : Badger Json
full_badger = record {
  Db = Dict Json;
  Txn = Dict Json;
  Item = Json;
  new_transaction = λ db w. db;
  txn_get = λ t k. or_missing (lookup k t);
  item_value = ok;
  txn_set = λ t k d. err (lib 11);
  txn_delete = λ t k. ok (erase k t);
  commit = λ db t. (ok tt, t);
  open_db = λ dir. ok [];
  close_db = λ db. ok tt;
}

pub full_badger_laws : BadgerLaws full_badger
full_badger_laws = record {
  stored = λ db k. lookup k db;
  item_of = λ db k d. d;
  get_present = λ db k e. ap or_missing e;
  item_lem = λ db k d. refl;
  get_absent = λ db k e. ap or_missing e;
  set_commit = λ db k d e h j. cc;
  delete_commit = λ db k e h. delete_lem db k e;
  commit_failed = λ db t h. cc;
}
