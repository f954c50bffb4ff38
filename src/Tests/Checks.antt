-- ===== src/Tests/Checks.antt =====
-- The theorem on the check of a saved signature, at a concrete one.
use alice_tss.Base.{◌≡◌, refl, some, [], ◌∷◌, codes, ok, arith}
use alice_tss.Types.{RvSignature}
use alice_tss.Libs.{VerifyLaw}
use alice_tss.Codec.BigInt.{pos}
use alice_tss.Codec.Hex.{hex_decode}
use alice_tss.Json.{Json, str, obj, field, end}
use alice_tss.Utils.Keys.{to_hex_hash}
use alice_tss.Store.Fsm.{set, put}
use alice_tss.Store.Badger.{save_signer_result_data}
use alice_tss.Store.Handler.{badger_handler}
use alice_tss.Server.Rpc.{checked, unmarshal_request_data, read_check_request, rpc_check_signature}
use alice_tss.Server.Rpc.Laws.{refused_signature, rpc_check_signature-save_signer_result_data}
use alice_tss.Tests.Toys.{
  toy_libs, toy_laws, toy_codec, toy_codec_laws, toy_badger, toy_badger_laws, toy_key,
}

abbrev some_signature : RvSignature
some_signature = record { r = codes "0b"; s = codes "0d"; hash = codes "h" }

toy_verify : VerifyLaw toy_libs
toy_verify = record { zero_refused = λ p m. refl }

abbrev check_json : Json
check_json =
    obj (field (codes "message") (str (codes "hi")) (field (codes "pubkey") (str (codes "02")) end))

check_read :
    unmarshal_request_data toy_codec read_check_request check_json
    ≡ ok (record { message = codes "hi"; pubkey = codes "02" })
unfolding unmarshal_request_data read_check_request
check_read = refl

signature_saved :
    (save_signer_result_data toy_libs toy_codec toy_badger toy_key []
      (to_hex_hash toy_libs (codes "hi"))
      some_signature).0
    ≡ ok tt
unfolding save_signer_result_data set put
signature_saved = refl

check_pubkey : hex_decode (codes "02") ≡ some (2 ∷ [])
unfolding hex_decode
check_pubkey = refl

rpc_check_signature-save_signer_result_data_example :
    rpc_check_signature toy_libs toy_codec
      (badger_handler toy_libs toy_codec toy_badger toy_key)
      check_json
      (record {
        handlers = [];
        store =
            (save_signer_result_data toy_libs toy_codec toy_badger toy_key []
              (to_hex_hash toy_libs (codes "hi"))
              some_signature).1;
      })
    ≡ ok (checked (refused_signature toy_libs (codes "hi") (record { x = pos 5; y = pos 7 })))
rpc_check_signature-save_signer_result_data_example =
    rpc_check_signature-save_signer_result_data toy_libs toy_laws toy_verify toy_codec
      toy_codec_laws toy_badger toy_badger_laws toy_key [] some_signature check_json
      (record {
        handlers = [];
        store =
            (save_signer_result_data toy_libs toy_codec toy_badger toy_key []
              (to_hex_hash toy_libs (codes "hi")) some_signature).1;
      })
      (record { message = codes "hi"; pubkey = codes "02" }) (2 ∷ [])
      (record { x = pos 5; y = pos 7 }) (omega arith) (omega arith) (omega arith) check_read
      signature_saved refl check_pubkey refl
