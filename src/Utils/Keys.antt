-- ===== src/Utils/Keys.antt =====
-- utils/utils.go: hashes as text, and the P-256 key made from a node's secret.
use alice_tss.Base.{
  ℕ, ◌*◌, ◌<◌, ◌≡◌, Bool, true, false, ◌&&◌, neb, ◌∷◌, ◌++◌, Bytes, Text, codes, length, Option,
  none, some, Result, ok, err, ◌>>=◌, invalid_length, key_too_big, key_not_positive,
  invalid_private_key, arith, leb, ◌==◌, if◌then◌else◌,
}
use alice_tss.Libs.{Libs, PrivateKey, Point}
use alice_tss.Codec.BigInt.{ℤ, pos, negsuc, magnitude, set_bytes, decimal}
use alice_tss.Codec.Hex.{hex_encode}

-- `ToHex`
unfoldable pub to_hex : Bytes → Text
to_hex b = codes "0x" ++ hex_encode b

-- `ToHexHash`
unfoldable pub to_hex_hash : Libs → Bytes → Text
to_hex_hash l b = to_hex (l.keccak256 b)

-- `EthSignMessage`
unfoldable pub eth_sign_message : Libs → Bytes → Bytes
eth_sign_message l msg =
    l.keccak256 (0x19 ∷ codes "Ethereum Signed Message:\n" ++ (decimal (length msg) ++ msg))

-- `RandomHash`, from what the clock, `crypto/rand` (`none` is its error) and `math/rand` give.
unfoldable pub random_hash : Libs → Text → Option Bytes → ℕ → Text
random_hash l now none rnd = to_hex_hash l (now ++ decimal rnd)
random_hash l now (some rand_bytes) rnd = to_hex_hash l (now ++ rand_bytes)

-- `GetPrivateKeyFromKeystore`, over the file system and go-ethereum's keystore.
unfoldable pub get_private_key_from_keystore :
    (Text → Result Bytes) → (Bytes → Text → Result PrivateKey) → Text → Text → Result PrivateKey
get_private_key_from_keystore read_file decrypt_key key_file pass = do
  key_json ← read_file key_file
  decrypt_key key_json pass

-- The order of secp256k1, against which the secret is checked.
abbrev pub secp256k1_n : ℕ
secp256k1_n = 0xfffffffffffffffffffffffffffffffebaaedce6af48a03bbfd25e8cd0364141

-- `Params().BitSize` of P-256
abbrev pub p256_bit_size : ℕ
p256_bit_size = 256

-- An `ecdsa.PrivateKey` on P-256.
pub record P256Key : Type 0 where
  pub d : ℤ
  pub public_key : Point

-- `d.Cmp(n) >= 0` for a natural `n`, and `d.Sign() <= 0`.
abbrev at_least : ℤ → ℕ → Bool
at_least (pos x) n = leb n x
at_least (negsuc x) n = false

abbrev not_positive : ℤ → Bool
not_positive (pos x) = x == 0
not_positive (negsuc x) = true

-- `ToEcdsaP256`. An error of `ScalarBaseMult` stands for `X == nil`.
abbrev on_p256 : ℤ → Result Point → Result P256Key
on_p256 d (ok p) = ok (record { d = d; public_key = p })
on_p256 d _ = err invalid_private_key

unfoldable pub to_ecdsa_p256 : Libs → Bytes → Bool → Result P256Key
to_ecdsa_p256 l b strict =
    let d = set_bytes b in
    if strict && neb (8 * length b) p256_bit_size
    then err invalid_length
    else if at_least d secp256k1_n
    then err key_too_big
    else if not_positive d
    then err key_not_positive
    else on_p256 d (l.scalar_base_mult b)

-- A key comes out only of a secret strictly between 0 and the order of secp256k1, as long as the
-- curve's size in strict mode, and it carries that secret and its public point.
pub to_ecdsa_p256_bounds :
    (l : Libs) (b : Bytes) (strict : Bool) (k : P256Key)
    → to_ecdsa_p256 l b strict ≡ ok k
    → (0 < magnitude (set_bytes b))
      × (magnitude (set_bytes b) < secp256k1_n)
      × (k.d ≡ set_bytes b)
      × (strict ≡ true → length b ≡ 32)
      × (l.scalar_base_mult b ≡ ok k.public_key)
unfolding to_ecdsa_p256 set_bytes
to_ecdsa_p256_bounds l b strict k h =
    (ground arith, ground arith, ground arith, ground arith, ground arith)

-- A secret of 32 bytes, strictly between 0 and the order of secp256k1, whose public point exists,
-- gives its key in both modes.
pub to_ecdsa_p256_total :
    (l : Libs) (b : Bytes) (strict : Bool) (p : Point)
    → length b ≡ 32
    → 0 < magnitude (set_bytes b)
    → magnitude (set_bytes b) < secp256k1_n
    → l.scalar_base_mult b ≡ ok p
    → to_ecdsa_p256 l b strict ≡ ok (record { d = set_bytes b; public_key = p })
unfolding to_ecdsa_p256 set_bytes
to_ecdsa_p256_total l b strict p n lo hi e = rw e (ground arith)
