-- ===== src/Tests/Storage.antt =====
-- The theorems on utils and store at concrete inputs.
use alice_tss.Base.{
  ◌<◌, ◌≡◌, refl, true, none, [], Text, codes, length, ok, lib, inl, inr, All, arith,
}
use alice_tss.Codec.BigInt.{pos, set_bytes, magnitude}
use alice_tss.Codec.Base64.{b64_decode}
use alice_tss.Codec.Hex.{hex_encode}
use alice_tss.Wire.{dkg_json, read_dkg, read_dkg-dkg_json}
use alice_tss.Utils.Encrypto.{encrypt, decrypt, new_cipher, iv_of, decrypt-encrypt, decrypt-corrupt}
use alice_tss.Utils.Keys.{to_ecdsa_p256, to_ecdsa_p256_bounds, to_ecdsa_p256_total, secp256k1_n}
use alice_tss.Store.Fsm.{set}
use alice_tss.Store.Badger.{pubkey_text, dkg_record, save_dkg_result_data, get_signer_config}
use alice_tss.Store.Badger.RoundTrip.{get_signer_config-save_dkg_result_data, signer_config_of}
use alice_tss.Store.Badger.Refine.{write, write-Keeps, write_failed, Keeps}
use alice_tss.Store.Badger.Promise.{save as save_write, promise_after}
use alice_tss.Store.Mock.{
  new_mock_db, mock_save_dkg_result_data, mock_get_signer_config, mock_update_dkg_result_data,
}
use alice_tss.Store.Mock.Laws.{mock_ignores_reshare}
use alice_tss.Store.Badger.Steady.{Steady}
use alice_tss.Tests.Toys.{
  sixteen, thirty_two, toy_libs, toy_laws, toy_codec, toy_codec_laws, toy_badger, toy_badger_laws,
  toy_key, toy_outcome, toy_outcome-IsOutcome, full_badger, full_badger_laws,
}

decrypt-encrypt_example :
    (c : Text) × (encrypt toy_libs (codes "ab12") thirty_two (codes "0123456789abcdef") ≡ ok c)
    × (decrypt toy_libs c thirty_two (codes "0123456789abcdef") ≡ ok (codes "ab12"))
    × All (λ b. b < 128) c
decrypt-encrypt_example =
    decrypt-encrypt toy_libs toy_laws (codes "ab12") thirty_two (codes "0123456789abcdef")
      (omega arith) (inr (inr refl)) (omega arith)

decrypt-corrupt_example : decrypt toy_libs (codes "???") sixteen (codes "0123456789abcdef") ≡ ok []
unfolding b64_decode
decrypt-corrupt_example =
    decrypt-corrupt toy_libs (codes "???") sixteen (codes "0123456789abcdef") (inl refl)
      (omega arith) refl

get_signer_config-save_example :
    get_signer_config toy_libs toy_codec toy_badger toy_key
      (save_dkg_result_data toy_libs toy_codec toy_badger toy_key [] (codes "h") toy_outcome).1
      (codes "h")
      (pubkey_text toy_libs toy_outcome)
    ≡ ok (signer_config_of toy_outcome)
unfolding save_dkg_result_data encrypt set new_cipher iv_of hex_encode
get_signer_config-save_example =
    get_signer_config-save_dkg_result_data toy_libs toy_laws toy_codec toy_codec_laws toy_badger
      toy_badger_laws toy_key [] (codes "h") toy_outcome toy_outcome-IsOutcome refl

key_made :
    to_ecdsa_p256 toy_libs thirty_two true
    ≡ ok (record { d = set_bytes thirty_two; public_key = record { x = pos 5; y = pos 7 } })
unfolding set_bytes
key_made =
    to_ecdsa_p256_total toy_libs thirty_two true (record { x = pos 5; y = pos 7 }) refl
      (omega arith) (omega arith) refl

to_ecdsa_p256_bounds_example :
    (0 < magnitude (set_bytes thirty_two))
    × (magnitude (set_bytes thirty_two) < secp256k1_n)
    × (set_bytes thirty_two ≡ set_bytes thirty_two)
    × (true ≡ true → length thirty_two ≡ 32)
    × (toy_libs.scalar_base_mult thirty_two ≡ ok (record { x = pos 5; y = pos 7 }))
to_ecdsa_p256_bounds_example =
    to_ecdsa_p256_bounds toy_libs thirty_two true
      (record { d = set_bytes thirty_two; public_key = record { x = pos 5; y = pos 7 } }) key_made

read_dkg-dkg_json_example :
    read_dkg toy_libs (dkg_json toy_libs (dkg_record toy_libs toy_outcome (codes "c2VhbA==")))
    ≡ ok (dkg_record toy_libs toy_outcome (codes "c2VhbA=="))
unfolding dkg_record
read_dkg-dkg_json_example =
    read_dkg-dkg_json toy_libs toy_laws (dkg_record toy_libs toy_outcome (codes "c2VhbA=="))
      (refl, omega arith) (omega arith) ((refl, tt), (tt, tt))

write-Keeps_example :
    Keeps toy_libs toy_laws toy_codec toy_codec_laws toy_badger toy_badger_laws toy_key
      (write toy_libs toy_laws toy_codec toy_codec_laws toy_badger toy_badger_laws toy_key []
        (save_write (codes "h") toy_outcome)).1
      (promise_after (λ k. none) (save_write (codes "h") toy_outcome))
unfolding write save_dkg_result_data encrypt set new_cipher iv_of hex_encode
write-Keeps_example =
    write-Keeps toy_libs toy_laws toy_codec toy_codec_laws toy_badger toy_badger_laws toy_key []
      (λ k. none) (save_write (codes "h") toy_outcome) toy_outcome-IsOutcome (λ k d e. cc) refl

write_failed_example :
    (write toy_libs toy_laws toy_codec toy_codec_laws full_badger full_badger_laws toy_key []
      (save_write (codes "h") toy_outcome)).1
    ≡ []
unfolding write save_dkg_result_data encrypt set new_cipher iv_of hex_encode
write_failed_example =
    write_failed toy_libs toy_laws toy_codec toy_codec_laws full_badger full_badger_laws toy_key []
      (save_write (codes "h") toy_outcome) (lib 11) refl

mock_ignores_reshare_example :
    mock_get_signer_config
      (mock_update_dkg_result_data
        (mock_save_dkg_result_data toy_libs new_mock_db (codes "h") toy_outcome).1
        (codes "h")
        (record { share = pos 9 })).1
      (codes "h")
      (codes "pk")
    ≡ ok (signer_config_of toy_outcome)
mock_ignores_reshare_example =
    mock_ignores_reshare toy_libs new_mock_db (codes "h") (codes "pk") toy_outcome
      (record { share = pos 9 }) toy_outcome-IsOutcome

-- What the store keeps after a write of an outcome.
pub kept_write :
    Keeps toy_libs toy_laws toy_codec toy_codec_laws toy_badger toy_badger_laws toy_key
      (write toy_libs toy_laws toy_codec toy_codec_laws toy_badger toy_badger_laws toy_key []
        (save_write (codes "h") toy_outcome)).1
      (promise_after (λ k. none) (save_write (codes "h") toy_outcome))
unfolding write save_dkg_result_data encrypt set new_cipher iv_of hex_encode
kept_write =
    write-Keeps toy_libs toy_laws toy_codec toy_codec_laws toy_badger toy_badger_laws toy_key []
      (λ k. none) (save_write (codes "h") toy_outcome) toy_outcome-IsOutcome (λ k d e. cc) refl

pub toy_Steady : Steady toy_codec toy_badger
toy_Steady = record {
  marshal_steady = λ v x e. cc;
  set_steady = λ t k d x e. cc;
  commit_steady = λ db t x e. cc;
}
