-- ===== src/Codec/Xor.antt =====
-- Exclusive or of bytes: one equation for the lowest digit, and the cancellation that a stream
-- cipher rests on.
use Prim.Native.Nat.{differ, digits, bit_xor, bit_xor-bitwise}
use native.Mathlib.Nat.{pow-suc}
use alice_tss.Base.{ℕ, zero, suc, ◌+◌, ◌*◌, ◌/◌, ◌%◌, ◌^◌, ◌≤◌, ◌<◌, ◌≡◌, refl, ◌∙◌, arith}

abbrev xor_digits : ℕ → ℕ → ℕ → ℕ
xor_digits n a b = digits (λ y. y) differ n a b

xor_digits_fuel : (n m a b : ℕ) → a ≤ n → a ≤ m → xor_digits n a b ≡ xor_digits m a b
xor_digits_fuel zero zero a b p q = refl
xor_digits_fuel zero (suc m) zero b p q = refl
xor_digits_fuel zero (suc m) (suc a) b p q = absurd (omega arith)
xor_digits_fuel (suc n) zero zero b p q = refl
xor_digits_fuel (suc n) zero (suc a) b p q = absurd (omega arith)
xor_digits_fuel (suc n) (suc m) zero b p q = refl
xor_digits_fuel (suc n) (suc m) (suc a) b p q =
    rw (xor_digits_fuel n m (suc a / 2) (b / 2) (omega arith) (omega arith))

zero-bit_xor : (b : ℕ) → bit_xor 0 b ≡ b
zero-bit_xor b = bit_xor-bitwise 0 b

differ_zero : (d : ℕ) → differ 0 d ≡ d
differ_zero d = refl

pub bit_xor_step : (a b : ℕ) → bit_xor a b ≡ bit_xor (a / 2) (b / 2) * 2 + differ (a % 2) (b % 2)
bit_xor_step zero b = omega (arith, zero-bit_xor b, zero-bit_xor (b / 2), differ_zero (b % 2))
bit_xor_step (suc a) b = omega (
  arith,
  bit_xor-bitwise (suc a) b,
  bit_xor-bitwise (suc a / 2) (b / 2),
  xor_digits_fuel a (suc a / 2) (suc a / 2) (b / 2) (omega arith) (omega arith),
)

differ_cancel : (x y : ℕ) → x < 2 → y < 2 → (differ (differ x y) y ≡ x) × (differ x y < 2)
differ_cancel zero zero p q = (refl, omega arith)
differ_cancel zero (suc zero) p q = (refl, omega arith)
differ_cancel (suc zero) zero p q = (refl, omega arith)
differ_cancel (suc zero) (suc zero) p q = (refl, omega arith)
differ_cancel zero (suc (suc y)) p q = absurd (omega arith)
differ_cancel (suc zero) (suc (suc y)) p q = absurd (omega arith)
differ_cancel (suc (suc x)) y p q = absurd (omega arith)

-- The lowest digit and the rest of an exclusive or.
bit_xor_parts :
    (a b : ℕ)
    → (bit_xor a b / 2 ≡ bit_xor (a / 2) (b / 2)) × (bit_xor a b % 2 ≡ differ (a % 2) (b % 2))
bit_xor_parts a b =
    let d = differ_cancel (a % 2) (b % 2) (omega arith) (omega arith) in
    let e = bit_xor_step a b in (omega arith, omega arith)

bit_xor_cancel_fuel : (n a b : ℕ) → a ≤ n → b ≤ n → bit_xor (bit_xor a b) b ≡ a
bit_xor_cancel_fuel zero zero zero p q = refl
bit_xor_cancel_fuel zero zero (suc b) p q = absurd (omega arith)
bit_xor_cancel_fuel zero (suc a) b p q = absurd (omega arith)
bit_xor_cancel_fuel (suc n) a b p q =
    let parts = bit_xor_parts a b in
    let d = differ_cancel (a % 2) (b % 2) (omega arith) (omega arith) in
    let ih = bit_xor_cancel_fuel n (a / 2) (b / 2) (omega arith) (omega arith) in
    let step = bit_xor_step (bit_xor a b) b in step ∙ rw (parts.0, parts.1, d.0, ih) (omega arith)

-- A byte masked twice with the same byte is the byte.
pub bit_xor_cancel : (a b : ℕ) → bit_xor (bit_xor a b) b ≡ a
bit_xor_cancel a b = bit_xor_cancel_fuel (a + b) a b (omega arith) (omega arith)

-- The exclusive or of numbers of k digits has k digits.
pub bit_xor-lt : (k a b : ℕ) → a < 2 ^ k → b < 2 ^ k → bit_xor a b < 2 ^ k
bit_xor-lt zero zero zero p q = omega arith
bit_xor-lt zero zero (suc b) p q = absurd (omega arith)
bit_xor-lt zero (suc a) b p q = absurd (omega arith)
bit_xor-lt (suc k) a b p q =
    let e = pow-suc 2 k in
    let d = (differ_cancel (a % 2) (b % 2) (omega arith) (omega arith)).1 in
    let ih = bit_xor-lt k (a / 2) (b / 2) (omega arith) (omega arith) in
    omega (arith, bit_xor_step a b)
