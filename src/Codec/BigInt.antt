-- ===== src/Codec/BigInt.antt =====
-- math/big as the nodes use it: `Bytes` and `SetBytes` (big-endian magnitude), `String` and
-- `SetString(s, 10)` (signed decimal).
use mathlib.Core.Option
use native.Mathlib.Nat.{div-add-mod', div-lt_self, mod-lt}
use alice_tss.Base.{
  ℕ, zero, suc, ◌+◌, ◌-◌, ◌*◌, ◌/◌, ◌%◌, ◌≤◌, ◌<◌, ◌≡◌, refl, ◌∙◌, ap, ◌&&◌, Option, none, some,
  List, [], ◌∷◌, map, arith, leb, ◌==◌, if◌then◌else◌, Bytes, Text, All,
}

-- A `big.Int`; `negsuc n` is -(n + 1).
pub data ℤ : Type 0 where
  pos : ℕ → ℤ
  negsuc : ℕ → ℤ

abbrev pub magnitude : ℤ → ℕ
magnitude (pos n) = n
magnitude (negsuc n) = suc n

-- Positional notation, most significant digit first, with no leading zero; 0 has no digit.
unfoldable pub digits_from : ℕ → ℕ → ℕ → List ℕ → List ℕ
digits_from b zero n acc = acc
digits_from b (suc f) zero acc = acc
digits_from b (suc f) (suc n) acc = digits_from b f (suc n / b) ((suc n % b) ∷ acc)

unfoldable pub of_digits : ℕ → ℕ → List ℕ → ℕ
of_digits b a [] = a
of_digits b a (d ∷ ds) = of_digits b (a * b + d) ds

module _ (b : ℕ) (two_le : 2 ≤ b) where
  quotient_falls : (n f : ℕ) → suc n ≤ suc f → suc n / b ≤ f
  quotient_falls n f h =
      let p : 0 < suc n = omega arith in omega (arith, div-lt_self {n = suc n} {k = b} p two_le)

  -- Reading back what was written, with the digits that follow.
  of_digits-digits_from :
      (f n : ℕ) (acc : List ℕ) → n ≤ f → of_digits b 0 (digits_from b f n acc) ≡ of_digits b n acc
  unfolding digits_from of_digits
  of_digits-digits_from zero n acc h = let e : n ≡ 0 = omega arith in rw e
  of_digits-digits_from (suc f) zero acc h = refl
  of_digits-digits_from (suc f) (suc n) acc h =
      of_digits-digits_from f (suc n / b) ((suc n % b) ∷ acc) (quotient_falls n f h)
      ∙ ap (λ t. of_digits b t acc) (div-add-mod' (suc n) b)

-- `x.Bytes()`: the magnitude, big-endian.
unfoldable pub int_bytes : ℤ → Bytes
unfolding digits_from
int_bytes x = let n = magnitude x in digits_from 256 n n []

-- `new(big.Int).SetBytes(b)`
unfoldable pub set_bytes : Bytes → ℤ
unfolding of_digits
set_bytes b = pos (of_digits 256 0 b)

-- The magnitude survives `Bytes` and `SetBytes`; the sign does not.
pub set_bytes-int_bytes : (x : ℤ) → set_bytes (int_bytes x) ≡ pos (magnitude x)
unfolding set_bytes int_bytes
set_bytes-int_bytes x =
    ap pos (of_digits-digits_from 256 (omega arith) (magnitude x) (magnitude x) [] (omega arith))

All-digits_from :
    (b f n : ℕ) (acc : List ℕ)
    → 2 ≤ b
    → All (λ d. d < b) acc
    → All (λ d. d < b) (digits_from b f n acc)
unfolding digits_from
All-digits_from b zero n acc p h = h
All-digits_from b (suc f) zero acc p h = h
All-digits_from b (suc f) (suc n) acc p h =
    All-digits_from b f (suc n / b) ((suc n % b) ∷ acc) p (mod-lt (suc n) {m = b} (omega arith), h)

-- Once a digit is written, the text is not empty.
digits_from-cons :
    (b f n d : ℕ) (acc : List ℕ) → (e : ℕ) × (r : List ℕ) × (digits_from b f n (d ∷ acc) ≡ e ∷ r)
unfolding digits_from
digits_from-cons b zero n d acc = (d, acc, refl)
digits_from-cons b (suc f) zero d acc = (d, acc, refl)
digits_from-cons b (suc f) (suc n) d acc = digits_from-cons b f (suc n / b) (suc n % b) (d ∷ acc)

-- The decimal text of a natural number.
unfoldable pub decimal : ℕ → Text
unfolding digits_from
decimal zero = b'0' ∷ []
decimal (suc n) = map (λ d. b'0' + d) (digits_from 10 (suc n) (suc n) [])

-- `x.String()`
unfoldable pub int_string : ℤ → Text
unfolding decimal
int_string (pos n) = decimal n
int_string (negsuc n) = b'-' ∷ decimal (suc n)

unfoldable pub scan : ℕ → Text → Option ℕ
scan a [] = some a
scan a (c ∷ s) =
    let rest = scan (a * 10 + (c - b'0')) s in if leb b'0' c && leb c b'9' then rest else none

abbrev negate : ℕ → ℤ
negate zero = pos 0
negate (suc n) = negsuc n

-- At least one digit, and nothing behind the digits.
unfoldable pub unsigned : Text → Option ℕ
unfolding scan
unsigned [] = none
unsigned (c ∷ s) = scan 0 (c ∷ s)

-- `new(big.Int).SetString(s, 10)`; `none` stands for `ok == false`.
unfoldable pub set_string : Text → Option ℤ
unfolding unsigned
set_string [] = none
set_string (c ∷ s) =
    if c == b'-'
    then Option.map negate (unsigned s)
    else if c == b'+'
    then Option.map pos (unsigned s)
    else Option.map pos (unsigned (c ∷ s))

scan-map :
    (a : ℕ) (ds : List ℕ)
    → All (λ d. d < 10) ds
    → scan a (map (λ d. b'0' + d) ds) ≡ some (of_digits 10 a ds)
unfolding scan of_digits
scan-map a [] h = refl
scan-map a (d ∷ ds) h =
    let e : a * 10 + (b'0' + d - b'0') ≡ a * 10 + d = omega arith in
    ground (arith, e, h.0, scan-map (a * 10 + (b'0' + d - b'0')) ds h.1)

-- The digits of a number, and that they read back to it.
record IsNumeral (n : ℕ) (s : Text) : Type 0 where
  digits : All (λ c. (48 ≤ c) × (c ≤ 57)) s
  value : unsigned s ≡ some n

All-map :
    (ds : List ℕ) → All (λ d. d < 10) ds → All (λ c. (48 ≤ c) × (c ≤ 57)) (map (λ d. b'0' + d) ds)
All-map [] h = tt
All-map (d ∷ ds) h = ((omega arith, omega arith), All-map ds h.1)

unsigned-map :
    (e : ℕ) (r : List ℕ)
    → All (λ d. d < 10) (e ∷ r)
    → unsigned (map (λ d. b'0' + d) (e ∷ r)) ≡ some (of_digits 10 0 (e ∷ r))
unfolding unsigned
unsigned-map e r h = scan-map 0 (e ∷ r) h

decimal-IsNumeral : (n : ℕ) → IsNumeral n (decimal n)
unfolding decimal of_digits
decimal-IsNumeral zero = record {
  digits = ((omega arith, omega arith), tt);
  value = unfold unsigned in refl;
}
decimal-IsNumeral (suc n) =
    let ds = digits_from 10 (suc n) (suc n) [] in
    let small = All-digits_from 10 (suc n) (suc n) [] (omega arith) tt in
    let (e, r, shape) = digits_from-cons 10 n (suc n / 10) (suc n % 10) [] in
    record {
      digits = All-map ds small;
      value = rw shape (
          unsigned-map e r (rw shape at (small))
          ∙ ap some (
              rw shape at
                (of_digits-digits_from 10 (omega arith) (suc n) (suc n) [] (omega arith))));
    }

unsigned-decimal : (n : ℕ) → unsigned (decimal n) ≡ some n
unsigned-decimal n = (decimal-IsNumeral n).value

-- A numeral begins with a digit, so with no sign.
set_string-numeral : (n : ℕ) (s : Text) → IsNumeral n s → set_string s ≡ some (pos n)
unfolding set_string
set_string-numeral n [] h = unfold unsigned in cc (h.value)
set_string-numeral n (c ∷ s) h = ground (arith, h.digits.0, h.value)

-- A `big.Int` survives `String` and `SetString`.
pub set_string-int_string : (x : ℤ) → set_string (int_string x) ≡ some x
unfolding int_string
set_string-int_string (pos n) = set_string-numeral n (decimal n) (decimal-IsNumeral n)
set_string-int_string (negsuc n) = unfold set_string in rw (unsigned-decimal (suc n)) refl

digit_IsAscii : (s : Text) → All (λ c. (48 ≤ c) × (c ≤ 57)) s → All (λ c. c < 128) s
digit_IsAscii [] h = tt
digit_IsAscii (c ∷ s) h = (omega (arith, h.0), digit_IsAscii s h.1)

pub int_string-IsAscii : (x : ℤ) → All (λ c. c < 128) (int_string x)
unfolding int_string
int_string-IsAscii (pos n) = digit_IsAscii (decimal n) (decimal-IsNumeral n).digits
int_string-IsAscii (negsuc n) =
    (omega arith, digit_IsAscii (decimal (suc n)) (decimal-IsNumeral (suc n)).digits)

pub int_bytes-IsBytes : (x : ℤ) → All (λ c. c < 256) (int_bytes x)
unfolding int_bytes
int_bytes-IsBytes x = All-digits_from 256 (magnitude x) (magnitude x) [] (omega arith) tt
