-- ===== src/Codec/Base64.antt =====
-- encoding/base64: `StdEncoding.EncodeToString` and `StdEncoding.DecodeString`.
use alice_tss.Base.{
  ℕ, ◌+◌, ◌-◌, ◌*◌, ◌/◌, ◌%◌, ◌<◌, ◌≡◌, refl, ◌∙◌, ap, false, ◌&&◌, ◌||◌, Option, none, some, [],
  ◌∷◌, arith, ltb, leb, ◌==◌, if◌then◌else◌, Bytes, Text, All,
}

-- The alphabet A-Z a-z 0-9 + /.
abbrev pub sextet_char : ℕ → ℕ
sextet_char v =
    if ltb v 26
    then v + 65
    else if ltb v 52
    then v + 71
    else if ltb v 62
    then v - 4
    else if v == 62
    then b'+'
    else b'/'

abbrev pub char_sextet : ℕ → Option ℕ
char_sextet c =
    if leb b'A' c && leb c b'Z'
    then some (c - 65)
    else if leb b'a' c && leb c b'z'
    then some (c - 71)
    else if leb b'0' c && leb c b'9'
    then some (c + 4)
    else if c == b'+'
    then some 62
    else if c == b'/'
    then some 63
    else none

-- `StdEncoding.EncodeToString`: three bytes to four characters, the last ones padded by `=`.
unfoldable pub b64_encode : Bytes → Text
b64_encode [] = []
b64_encode (a ∷ []) = sextet_char (a / 4) ∷ sextet_char (a % 4 * 16) ∷ b'=' ∷ b'=' ∷ []
b64_encode (a ∷ b ∷ []) =
    sextet_char (a / 4) ∷ sextet_char (a % 4 * 16 + b / 16) ∷ sextet_char (b % 16 * 4) ∷ b'=' ∷ []
b64_encode (a ∷ b ∷ c ∷ r) =
    sextet_char (a / 4)
    ∷ sextet_char (a % 4 * 16 + b / 16)
    ∷ sextet_char (b % 16 * 4 + c / 64)
    ∷ sextet_char (c % 64)
    ∷ b64_encode r

abbrev one_byte : Option ℕ → Option ℕ → Option Bytes
one_byte (some x) (some y) = some ((x * 4 + y / 16) ∷ [])
one_byte (some x) none = none
one_byte none y = none

abbrev two_bytes : Option ℕ → Option ℕ → Option ℕ → Option Bytes
two_bytes (some x) (some y) (some z) = some ((x * 4 + y / 16) ∷ (y % 16 * 16 + z / 4) ∷ [])
two_bytes (some x) (some y) none = none
two_bytes (some x) none z = none
two_bytes none y z = none

abbrev three_bytes : Option ℕ → Option ℕ → Option ℕ → Option ℕ → Option Bytes → Option Bytes
three_bytes (some x) (some y) (some z) (some w) (some r) =
    some ((x * 4 + y / 16) ∷ (y % 16 * 16 + z / 4) ∷ (z % 4 * 64 + w) ∷ r)
three_bytes (some x) (some y) (some z) (some w) none = none
three_bytes (some x) (some y) (some z) none r = none
three_bytes (some x) (some y) none w r = none
three_bytes (some x) none z w r = none
three_bytes none y z w r = none

-- The last four characters may end in one or two `=`.
abbrev last_quantum : ℕ → ℕ → ℕ → ℕ → Option Bytes
last_quantum p q r s =
    if s == b'='
    then (if r == b'='
        then one_byte (char_sextet p) (char_sextet q)
        else two_bytes (char_sextet p) (char_sextet q) (char_sextet r))
    else three_bytes (char_sextet p) (char_sextet q) (char_sextet r) (char_sextet s) (some [])

unfoldable pub decode_quanta : Text → Option Bytes
decode_quanta [] = some []
decode_quanta (p ∷ []) = none
decode_quanta (p ∷ q ∷ []) = none
decode_quanta (p ∷ q ∷ r ∷ []) = none
decode_quanta (p ∷ q ∷ r ∷ s ∷ []) = last_quantum p q r s
decode_quanta (p ∷ q ∷ r ∷ s ∷ t ∷ u) =
    three_bytes (char_sextet p) (char_sextet q) (char_sextet r) (char_sextet s)
      (decode_quanta (t ∷ u))

-- Line breaks are skipped wherever they stand.
unfoldable pub strip_newlines : Text → Text
strip_newlines [] = []
strip_newlines (c ∷ s) =
    let rest = strip_newlines s in if c == 10 || c == 13 then rest else c ∷ rest

-- `StdEncoding.DecodeString`; `none` stands for its `CorruptInputError`.
unfoldable pub b64_decode : Text → Option Bytes
unfolding decode_quanta strip_newlines
b64_decode s = decode_quanta (strip_newlines s)

char_sextet-sextet_char : (v : ℕ) → v < 64 → char_sextet (sextet_char v) ≡ some v
char_sextet-sextet_char v h = ground arith

-- The alphabet has no `=`, no line break and no byte past ASCII.
sextet_char_plain :
    (v : ℕ)
    → v < 64
    → ((sextet_char v == b'=') ≡ false)
      × ((sextet_char v == 10) ≡ false)
      × ((sextet_char v == 13) ≡ false)
      × (sextet_char v < 128)
sextet_char_plain v h = (ground arith, ground arith, ground arith, ground arith)

-- What a byte contributes to each character is below 64.
IsPlain : ℕ → Type 0
IsPlain c = ((c == 10) ≡ false) × ((c == 13) ≡ false) × (c < 128)

plain : (v : ℕ) → v < 64 → IsPlain (sextet_char v)
unfolding IsPlain
plain v h = let p = sextet_char_plain v h in (p.1, p.2, p.3)

pad-IsPlain : IsPlain b'='
unfolding IsPlain
pad-IsPlain = (refl, refl, omega arith)

b64_encode-IsPlain : (bs : Bytes) → All (λ b. b < 256) bs → All IsPlain (b64_encode bs)
unfolding b64_encode
b64_encode-IsPlain [] h = tt
b64_encode-IsPlain (a ∷ []) h = (
  plain (a / 4) (omega (arith, h.0)),
  (plain (a % 4 * 16) (omega arith), (pad-IsPlain, (pad-IsPlain, tt))),
)
b64_encode-IsPlain (a ∷ b ∷ []) h = (
  plain (a / 4) (omega (arith, h.0)),
  (
    plain (a % 4 * 16 + b / 16) (omega (arith, h.1.0)),
    (plain (b % 16 * 4) (omega arith), (pad-IsPlain, tt)),
  ),
)
b64_encode-IsPlain (a ∷ b ∷ c ∷ r) h = (
  plain (a / 4) (omega (arith, h.0)),
  (
    plain (a % 4 * 16 + b / 16) (omega (arith, h.1.0)),
    (
      plain (b % 16 * 4 + c / 64) (omega (arith, h.1.1.0)),
      (plain (c % 64) (omega arith), b64_encode-IsPlain r h.1.1.1),
    ),
  ),
)

strip_newlines_lem : (s : Text) → All IsPlain s → strip_newlines s ≡ s
unfolding strip_newlines IsPlain
strip_newlines_lem [] h = refl
strip_newlines_lem (c ∷ s) h = ground (arith, h.0, strip_newlines_lem s h.1)

ascii_of_IsPlain : (s : Text) → All IsPlain s → All (λ c. c < 128) s
unfolding IsPlain
ascii_of_IsPlain [] h = tt
ascii_of_IsPlain (c ∷ s) h = (h.0.2, ascii_of_IsPlain s h.1)

pub b64_encode-IsAscii : (bs : Bytes) → All (λ b. b < 256) bs → All (λ c. c < 128) (b64_encode bs)
b64_encode-IsAscii bs h = ascii_of_IsPlain (b64_encode bs) (b64_encode-IsPlain bs h)

decode_quanta-four :
    (p q r s : ℕ) (t : Text)
    → (s == b'=') ≡ false
    → decode_quanta (p ∷ q ∷ r ∷ s ∷ t)
      ≡ three_bytes
          (char_sextet p)
          (char_sextet q)
          (char_sextet r)
          (char_sextet s)
          (decode_quanta t)
unfolding decode_quanta
decode_quanta-four p q r s [] e = rw e
decode_quanta-four p q r s (t ∷ u) e = refl

decode_quanta-b64_encode :
    (bs : Bytes) → All (λ b. b < 256) bs → decode_quanta (b64_encode bs) ≡ some bs
unfolding b64_encode
decode_quanta-b64_encode [] h = unfold decode_quanta in refl
decode_quanta-b64_encode (a ∷ []) h =
    unfold decode_quanta in
    rw
      (
        char_sextet-sextet_char (a / 4) (omega (arith, h.0)),
        char_sextet-sextet_char (a % 4 * 16) (omega arith),
      )
      (ap some (ap (λ t. t ∷ []) (omega arith)))
decode_quanta-b64_encode (a ∷ b ∷ []) h =
    unfold decode_quanta in
    rw
      (
        (sextet_char_plain (b % 16 * 4) (omega arith)).0,
        char_sextet-sextet_char (a / 4) (omega (arith, h.0)),
        char_sextet-sextet_char (a % 4 * 16 + b / 16) (omega (arith, h.1.0)),
        char_sextet-sextet_char (b % 16 * 4) (omega arith),
      )
      (ground (arith, h.0, h.1.0))
decode_quanta-b64_encode (a ∷ b ∷ c ∷ r) h =
    decode_quanta-four _ _ _ _ (b64_encode r) (sextet_char_plain (c % 64) (omega arith)).0
    ∙ rw
        (
          char_sextet-sextet_char (a / 4) (omega (arith, h.0)),
          char_sextet-sextet_char (a % 4 * 16 + b / 16) (omega (arith, h.1.0)),
          char_sextet-sextet_char (b % 16 * 4 + c / 64) (omega (arith, h.1.1.0)),
          char_sextet-sextet_char (c % 64) (omega arith),
          decode_quanta-b64_encode r h.1.1.1,
        )
        (ground (arith, h.0, h.1.0, h.1.1.0))

-- Bytes survive base64.
pub b64_decode-b64_encode :
    (bs : Bytes) → All (λ b. b < 256) bs → b64_decode (b64_encode bs) ≡ some bs
unfolding b64_decode
b64_decode-b64_encode bs h =
    rw (strip_newlines_lem (b64_encode bs) (b64_encode-IsPlain bs h))
      (decode_quanta-b64_encode bs h)
