-- ===== src/Server/Rpc/Laws.antt =====
-- What the handlers of server/rpc_server.go come to.
use alice_tss.Base.{◌≡◌, refl, false, Option, none, some, [], Bytes, Text, ok, text_eq_refl, arith}
use alice_tss.Types.{RvSignature, DkgResult, no_signature}
use alice_tss.Libs.{Libs, LibLaws, VerifyLaw, PrivateKey, Point}
use alice_tss.Json.{Json, IsAscii, IsPlain}
use alice_tss.Wire.{
  dkg_json, signature_json, read_signature, read_dkg-signature_json, read_signature-dkg_json,
  dkg_json-IsPlain, no_dkg,
}
use alice_tss.Codec.Hex.{hex_encode, hex_decode}
use alice_tss.Codec.BigInt.{set_bytes}
use alice_tss.Utils.Keys.{to_hex_hash}
use alice_tss.Utils.Signature.{CheckedSignature, check_signature_ecdsa}
use alice_tss.Store.Backend.{Codec, CodecLaws, Badger, BadgerLaws}
use alice_tss.Store.Fsm.Laws.{get-set}
use alice_tss.Store.Badger.{save_signer_result_data, get_dkg_result_data}
use alice_tss.Store.Handler.{HandlerData, badger_handler}
use alice_tss.Service.Node.{Node}
use alice_tss.Server.Rpc.{
  CheckRequest, checked, unmarshal_request_data, read_check_request, pointer_json,
  rpc_check_signature,
}

-- The answer that no stored signature changes.
abbrev pub refused_signature : Libs → Text → Point → CheckedSignature
refused_signature l message p = record {
  is_valid = false;
  message = message;
  hash_message = hex_encode message;
  address = l.address_string (l.pubkey_to_address p.x p.y);
}

module _ (l : Libs) (laws : LibLaws l) (verify : VerifyLaw l) (c : Codec)
    (codec : CodecLaws c) where
  check_no_signature :
      (message pubkey : Text) (b : Bytes) (p : Point)
      → hex_decode pubkey ≡ some b
      → l.decompress_pubkey b ≡ ok p
      → check_signature_ecdsa l message no_signature pubkey ≡ ok (refused_signature l message p)
  unfolding check_signature_ecdsa hex_encode set_bytes
  check_no_signature message pubkey b p hex known =
      let e : l.from_hex [] ≡ [] = laws.from_hex-hex_encode [] tt in
      rw (e, hex, known, verify.zero_refused p message) refl

  -- The signature that is read from a result of a key generation, or from nil, is empty.
  read_pointer : (d : Option DkgResult) → read_signature (pointer_json l d) ≡ ok no_signature
  unfolding read_signature
  read_pointer none = refl
  read_pointer (some d) = read_signature-dkg_json l d

  -- For a request that can be read, whose public key is a point, `CheckSignature` answers that the signature
  -- is not valid, whatever the store holds under the hash of the message, as long as it returns no error and
  -- what it returns can be written as JSON.
  pub rpc_check_signature_refuses :
      {S : Type 0} (h : HandlerData S) (value : Json) (n : Node S) (request : CheckRequest)
      (d : Option DkgResult) (b : Bytes) (p : Point)
      → unmarshal_request_data c read_check_request value ≡ ok request
      → h.get_dkg_result_data n.store (to_hex_hash l request.message) ≡ ok d
      → IsPlain (pointer_json l d)
      → hex_decode request.pubkey ≡ some b
      → l.decompress_pubkey b ≡ ok p
      → rpc_check_signature l c h value n ≡ ok (checked (refused_signature l request.message p))
  unfolding rpc_check_signature
  rpc_check_signature_refuses h value n request d b p asked there plain hex known = rw (
    asked,
    there,
    codec.marshal_lem (pointer_json l d) plain,
    codec.unmarshal_lem (pointer_json l d) plain,
    read_pointer d,
    check_no_signature request.message request.pubkey b p hex known,
  )

  module _ (bd : Badger c.Doc) (badger : BadgerLaws bd) (key : PrivateKey) where
    signature_json-IsPlain :
        (g : RvSignature) → IsAscii g.r → IsAscii g.s → IsAscii g.hash → IsPlain (signature_json g)
    unfolding signature_json IsPlain
    signature_json-IsPlain g r s hash = (omega arith, r, (omega arith, s, (omega arith, hash, tt)))

    get_dkg-save_signer :
        (db : bd.Db) (hash : Text) (g : RvSignature)
        → IsPlain (signature_json g)
        → (save_signer_result_data l c bd key db hash g).0 ≡ ok tt
        → get_dkg_result_data l c bd key (save_signer_result_data l c bd key db hash g).1 hash
          ≡ ok no_dkg
    unfolding get_dkg_result_data save_signer_result_data
    get_dkg-save_signer db hash g plain saved = rw (
      get-set c bd badger codec db hash (signature_json g) plain saved hash,
      text_eq_refl hash,
      codec.marshal_lem (signature_json g) plain,
      codec.unmarshal_lem (signature_json g) plain,
      read_dkg-signature_json l g,
    )

    no_dkg-IsPlain : IsPlain (dkg_json l no_dkg)
    no_dkg-IsPlain = dkg_json-IsPlain l laws no_dkg (record {
      share = tt;
      x = tt;
      y = tt;
      public_key = tt;
      address = (refl, omega arith);
      texts = tt;
      ranks = tt;
      keys = tt;
    })

    -- Over badger, right after an ASCII signature was stored with no error under the hash of a
    -- message: for a request with that message that can be read and whose public key is a point,
    -- `CheckSignature` answers that the signature is not valid, whatever it is.
    pub rpc_check_signature-save_signer_result_data :
        (db : bd.Db) (g : RvSignature) (value : Json) (n : Node bd.Db) (request : CheckRequest)
        (b : Bytes) (p : Point)
        → IsAscii g.r
        → IsAscii g.s
        → IsAscii g.hash
        → unmarshal_request_data c read_check_request value ≡ ok request
        → (save_signer_result_data l c bd key db (to_hex_hash l request.message) g).0 ≡ ok tt
        → n.store ≡ (save_signer_result_data l c bd key db (to_hex_hash l request.message) g).1
        → hex_decode request.pubkey ≡ some b
        → l.decompress_pubkey b ≡ ok p
        → rpc_check_signature l c (badger_handler l c bd key) value n
          ≡ ok (checked (refused_signature l request.message p))
    rpc_check_signature-save_signer_result_data db g value n request b p r s hash asked saved same
          hex known =
        let plain = signature_json-IsPlain g r s hash in
        rpc_check_signature_refuses (badger_handler l c bd key) value n request (some no_dkg) b p
          asked (rw (same, get_dkg-save_signer db (to_hex_hash l request.message) g plain saved))
          no_dkg-IsPlain hex known
