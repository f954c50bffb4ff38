-- ===== src/Libs.antt =====
-- What the nodes take from libraries that are not part of the repository: go-ethereum (hex helpers,
-- Keccak, public keys, addresses), getamis/alice (points, Birkhoff parameters, protocol results),
-- the AES block function and ECDSA verification. Each is an argument, its documented laws apart.
use alice_tss.Base.{ℕ, ◌<◌, ◌≡◌, Bytes, Text, Dict, Result, ok, All, length, Bool, false}
use alice_tss.Codec.BigInt.{ℤ, pos}
use alice_tss.Codec.Hex.{hex_encode}

-- `ecpointgrouplaw.ECPoint`, by what `GetX` and `GetY` return.
pub record Point : Type 0 where
  pub x : ℤ
  pub y : ℤ

-- `birkhoffinterpolation.BkParameter`, by what `GetX` and `GetRank` return.
pub record BkParameter : Type 0 where
  pub x : ℤ
  pub rank : ℕ  -- uint32

-- `dkg.Result`, `reshare.Result` and `signer.Result` of alice.
pub record DkgOutcome : Type 0 where
  pub public_key : Point
  pub share : ℤ
  pub bks : Dict BkParameter

pub record ReshareOutcome : Type 0 where
  pub share : ℤ

pub record SignOutcome : Type 0 where
  pub r : ℤ
  pub s : ℤ

-- `ecdsa.PrivateKey`, by its secret number.
pub record PrivateKey : Type 0 where
  pub d : ℤ

pub record Libs : Type 0 where
  -- go-ethereum, `common` and `crypto`
  pub bytes_to_hex : Bytes → Text
  pub from_hex : Text → Bytes
  pub hex_to_bytes : Text → Bytes
  pub keccak256 : Bytes → Bytes
  pub from_ecdsa : PrivateKey → Bytes
  pub compress_pubkey : ℤ → ℤ → Bytes
  pub decompress_pubkey : Bytes → Result Point
  pub pubkey_to_address : ℤ → ℤ → Bytes
  -- `Address.MarshalText` and `Address.String`
  pub address_text : Bytes → Text
  pub address_string : Bytes → Text
  pub parse_address : Text → Result Bytes
  -- alice
  pub new_ec_point : ℤ → ℤ → Result Point
  -- crypto/aes: the block function under a key
  pub aes_block : Bytes → Bytes → Bytes
  -- crypto/elliptic, P-256: `ScalarBaseMult`; `none` of its point is `X == nil`
  pub scalar_base_mult : Bytes → Result Point
  -- crypto/ecdsa
  pub ecdsa_verify : Point → Bytes → ℤ → ℤ → Bool

-- An address is twenty bytes.
abbrev pub IsAddress : Bytes → Type 0
IsAddress a = (length a ≡ 20) × All (λ c. c < 256) a

-- What the program relies on. Each field is documented behaviour of its library.
pub record LibLaws (l : Libs) : Type 0 where
  pub bytes_to_hex-eq : (b : Bytes) → l.bytes_to_hex b ≡ hex_encode b
  pub from_hex-hex_encode : (b : Bytes) → All (λ c. c < 256) b → l.from_hex (hex_encode b) ≡ b
  pub from_ecdsa-length : (k : PrivateKey) → length (l.from_ecdsa k) ≡ 32
  pub compress_pubkey-length : (x y : ℤ) → length (l.compress_pubkey x y) ≡ 33
  pub compress_pubkey-IsBytes : (x y : ℤ) → All (λ c. c < 256) (l.compress_pubkey x y)
  pub pubkey_to_address-IsAddress : (x y : ℤ) → IsAddress (l.pubkey_to_address x y)
  pub address_text-IsAscii : (a : Bytes) → IsAddress a → All (λ c. c < 128) (l.address_text a)
  pub parse_address-address_text :
      (a : Bytes) → IsAddress a → l.parse_address (l.address_text a) ≡ ok a
  pub aes_block-IsBytes : (k b : Bytes) → All (λ c. c < 256) (l.aes_block k b)

-- `ecdsa.Verify` refuses a zero in a signature.
pub record VerifyLaw (l : Libs) : Type 0 where
  pub zero_refused : (p : Point) (m : Bytes) → l.ecdsa_verify p m (pos 0) (pos 0) ≡ false
