-- ===== src/Utils/Signature.antt =====
-- utils/ecdsa.go: the check of a signature against a compressed public key.
use alice_tss.Base.{Bool, Bytes, Text, Option, none, some, Result, ok, err, ◌>>=◌, lib}
use alice_tss.Types.{RvSignature}
use alice_tss.Libs.{Libs}
use alice_tss.Codec.BigInt.{set_bytes}
use alice_tss.Codec.Hex.{hex_encode, hex_decode}

-- `ResponseCheckSignature`
pub record CheckedSignature : Type 0 where
  pub is_valid : Bool
  pub message : Text
  pub hash_message : Text
  pub address : Text

abbrev or_hex_error : Option Bytes → Result Bytes
or_hex_error none = err (lib 2)
or_hex_error (some b) = ok b

-- `CheckSignatureECDSA`
unfoldable pub check_signature_ecdsa : Libs → Text → RvSignature → Text → Result CheckedSignature
check_signature_ecdsa l msg signature pubkey =
    let r = set_bytes (l.from_hex signature.r) in
    let s = set_bytes (l.from_hex signature.s) in
    do
      pubkey_bytes ← or_hex_error (hex_decode pubkey)
      public_key ← l.decompress_pubkey pubkey_bytes
      ok (record {
        is_valid = l.ecdsa_verify public_key msg r s;
        message = msg;
        hash_message = hex_encode msg;
        address = l.address_string (l.pubkey_to_address public_key.x public_key.y);
      })
