-- ===== src/Codec/Hex.antt =====
-- encoding/hex: `EncodeToString` and `DecodeString`.
use alice_tss.Base.{
  ℕ, ◌+◌, ◌-◌, ◌*◌, ◌/◌, ◌%◌, ◌<◌, ◌≡◌, refl, ◌&&◌, Option, none, some, [], ◌∷◌, arith, ltb, leb,
  if◌then◌else◌, Bytes, Text, All,
}

-- "0123456789abcdef"[d]
abbrev pub hex_digit : ℕ → ℕ
hex_digit d = if ltb d 10 then b'0' + d else b'a' + (d - 10)

-- `hex.EncodeToString`
unfoldable pub hex_encode : Bytes → Text
hex_encode [] = []
hex_encode (b ∷ bs) = hex_digit (b / 16) ∷ hex_digit (b % 16) ∷ hex_encode bs

abbrev pub hex_value : ℕ → Option ℕ
hex_value c =
    if leb b'0' c && leb c b'9'
    then some (c - b'0')
    else if leb b'a' c && leb c b'f'
    then some (c - b'a' + 10)
    else if leb b'A' c && leb c b'F'
    then some (c - b'A' + 10)
    else none

abbrev byte_of : Option ℕ → Option ℕ → Option ℕ
byte_of (some h) (some l) = some (h * 16 + l)
byte_of (some h) none = none
byte_of none l = none

abbrev push : Option ℕ → Option Bytes → Option Bytes
push (some b) (some bs) = some (b ∷ bs)
push (some b) none = none
push none bs = none

-- `hex.DecodeString`; `none` stands for its error, an odd length or a byte that is no digit.
unfoldable pub hex_decode : Text → Option Bytes
hex_decode [] = some []
hex_decode (c ∷ []) = none
hex_decode (c ∷ d ∷ s) = push (byte_of (hex_value c) (hex_value d)) (hex_decode s)

hex_value-hex_digit : (d : ℕ) → d < 16 → hex_value (hex_digit d) ≡ some d
hex_value-hex_digit d h = ground arith

-- Bytes survive hexadecimal.
pub hex_decode-hex_encode :
    (bs : Bytes) → All (λ b. b < 256) bs → hex_decode (hex_encode bs) ≡ some bs
unfolding hex_decode hex_encode
hex_decode-hex_encode [] h = refl
hex_decode-hex_encode (b ∷ bs) h =
    rw
      (
        hex_value-hex_digit (b / 16) (omega (arith, h.0)),
        hex_value-hex_digit (b % 16) (omega arith),
        hex_decode-hex_encode bs h.1,
      )
      (ground arith)

hex_digit_IsAscii : (d : ℕ) → d < 16 → hex_digit d < 128
hex_digit_IsAscii d h = ground arith

pub hex_encode-IsAscii : (bs : Bytes) → All (λ b. b < 256) bs → All (λ c. c < 128) (hex_encode bs)
unfolding hex_encode
hex_encode-IsAscii [] h = tt
hex_encode-IsAscii (b ∷ bs) h = (
  hex_digit_IsAscii (b / 16) (omega (arith, h.0)),
  (hex_digit_IsAscii (b % 16) (omega arith), hex_encode-IsAscii bs h.1),
)
