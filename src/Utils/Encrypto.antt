-- ===== src/Utils/Encrypto.antt =====
-- utils/encrypto.go: shares at rest, AES in CFB mode under the node's key, as base64.
use alice_tss.Base.{
  ℕ, ◌≤◌, ◌<◌, ◌≡◌, ◌||◌, ◌⊎◌, Option, none, some, [], Bytes, Text, All, length, take, Result, ok,
  err, panic, ◌>>=◌, lib, slice_out_of_range, arith, leb, ◌==◌, if◌then◌else◌,
}
use alice_tss.Libs.{Libs, LibLaws}
use alice_tss.Codec.Base64.{b64_encode, b64_decode, b64_decode-b64_encode, b64_encode-IsAscii}
use alice_tss.Codec.Cfb.{
  encrypt_stream, decrypt_stream, new_stream, decrypt_stream-encrypt_stream, encrypt_stream-IsBytes,
}

abbrev or_nil : Option Bytes → Bytes
or_nil none = []
or_nil (some b) = b

-- `B64Decode` logs an error and returns nil.
unfoldable pub b64_decode_or_nil : Text → Bytes
b64_decode_or_nil s = or_nil (b64_decode s)

-- `aes.KeySizeError`
abbrev pub key_size : Result (Bytes → Bytes)
key_size = err (lib 1)

-- `aes.NewCipher` takes keys of 16, 24 and 32 bytes.
unfoldable pub new_cipher : Libs → Bytes → Result (Bytes → Bytes)
new_cipher l secret =
    let n = length secret in
    if n == 16 || (n == 24 || n == 32) then ok (l.aes_block secret) else key_size

-- `[]byte(salt)[0:16]`. Of a shorter salt Go may take bytes behind its end, as far as the copy has room;
-- that is a panic here.
unfoldable pub iv_of : Text → Result Bytes
iv_of salt = if leb 16 (length salt) then ok (take 16 salt) else panic slice_out_of_range

-- The body of `Encrypt` and of `Decrypt` once the cipher and the iv are there.
unfoldable pub seal : (Bytes → Bytes) → Bytes → Text → Text
seal block iv text = b64_encode (encrypt_stream block (new_stream iv) text)

unfoldable pub unseal : (Bytes → Bytes) → Bytes → Text → Text
unfolding b64_decode_or_nil
unseal block iv text = decrypt_stream block (new_stream iv) (b64_decode_or_nil text)

unfoldable pub encrypt : Libs → Text → Bytes → Text → Result Text
encrypt l text secret salt = do
  block ← new_cipher l secret
  iv ← iv_of salt
  ok (seal block iv text)

unfoldable pub decrypt : Libs → Text → Bytes → Text → Result Text
decrypt l text secret salt = do
  block ← new_cipher l secret
  iv ← iv_of salt
  ok (unseal block iv text)

module _ (block : Bytes → Bytes) (bytes : (r : Bytes) → All (λ k. k < 256) (block r)) where
  unseal-seal :
      (iv : Bytes) (text : Text)
      → All (λ b. b < 256) text
      → unseal block iv (seal block iv text) ≡ text
  unfolding unseal seal
  unseal-seal iv text h =
      rw
        (b64_decode-b64_encode (encrypt_stream block (new_stream iv) text)
          (encrypt_stream-IsBytes block bytes (new_stream iv) text tt h))
        (decrypt_stream-encrypt_stream block (new_stream iv) text)

  seal-IsAscii :
      (iv : Bytes) (text : Text) → All (λ b. b < 256) text → All (λ c. c < 128) (seal block iv text)
  unfolding seal
  seal-IsAscii iv text h =
      b64_encode-IsAscii (encrypt_stream block (new_stream iv) text)
        (encrypt_stream-IsBytes block bytes (new_stream iv) text tt h)

abbrev pub IsKeySize : ℕ → Type 0
IsKeySize n = (n ≡ 16) ⊎ ((n ≡ 24) ⊎ (n ≡ 32))

module _ (l : Libs) (laws : LibLaws l) where
  -- A text of bytes, under a key of 16, 24 or 32 bytes and a salt of at least 16, is encrypted, to
  -- ASCII, and decrypted under the same key and salt to the text again.
  pub decrypt-encrypt :
      (text : Text) (secret : Bytes) (salt : Text)
      → All (λ b. b < 256) text
      → IsKeySize (length secret)
      → 16 ≤ length salt
      → (c : Text) × (encrypt l text secret salt ≡ ok c)
        × (decrypt l c secret salt ≡ ok text)
        × All (λ b. b < 128) c
  unfolding encrypt decrypt new_cipher iv_of
  decrypt-encrypt text secret salt h k s =
      let block = l.aes_block secret in
      let bytes = laws.aes_block-IsBytes secret in
      let iv = take 16 salt in
      (
        seal block iv text,
        ground arith,
        ground (arith, unseal-seal block bytes iv text h),
        seal-IsAscii block bytes iv text h,
      )

-- A stored text that is no base64 decrypts, under a key of 16, 24 or 32 bytes and a salt of at least
-- 16, to the empty text: no error is returned.
pub decrypt-corrupt :
    (l : Libs) (text : Text) (secret : Bytes) (salt : Text)
    → IsKeySize (length secret)
    → 16 ≤ length salt
    → b64_decode text ≡ none
    → decrypt l text secret salt ≡ ok []
unfolding decrypt new_cipher iv_of unseal decrypt_stream
decrypt-corrupt l text secret salt k s e = rw (e, b64_decode_or_nil) (ground arith)

-- A key of any size but 16, 24 and 32 bytes is an error of `Encrypt` and of `Decrypt` alike, before
-- the salt is read.
pub key_size_error :
    (l : Libs) (text : Text) (secret : Bytes) (salt : Text)
    → ¬ IsKeySize (length secret)
    → (encrypt l text secret salt ≡ err (lib 1)) × (decrypt l text secret salt ≡ err (lib 1))
unfolding encrypt decrypt new_cipher
key_size_error l text secret salt h = (grind arith, grind arith)
