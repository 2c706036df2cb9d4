-- ===== src/Common/Xor.antt =====
-- Exclusive or of words at every width: its lowest digit, its range, and that it undoes itself.
use Prim.Native.Nat.{
  ℕ, zero, suc, ◌+◌, ◌*◌, ◌/◌, ◌%◌, ◌^◌, ◌≤◌, ◌<◌, bit_xor, digits, differ, bit_xor-bitwise,
}
use mathlib.Core.Path.{◌≡◌, refl, ap, ◌∙◌, sym}
use native.Mathlib.Nat.{pow-suc}
use native.Mathlib.Omega.{arith}

abbrev xor_digits : ℕ → ℕ → ℕ → ℕ
xor_digits = digits (λ b. b) differ

-- The count of digits to go does not matter, as long as the first number does not run out of it.
xor_digits-enough : (n m a b : ℕ) → a ≤ n → a ≤ m → xor_digits n a b ≡ xor_digits m a b
xor_digits-enough zero zero a b p q = refl
xor_digits-enough zero (suc m) zero b p q = refl
xor_digits-enough zero (suc m) (suc a) b p q = absurd (omega arith)
xor_digits-enough (suc n) zero zero b p q = refl
xor_digits-enough (suc n) zero (suc a) b p q = absurd (omega arith)
xor_digits-enough (suc n) (suc m) zero b p q = refl
xor_digits-enough (suc n) (suc m) (suc a) b p q =
    ap (λ (d : ℕ). d * 2 + differ (suc a % 2) (b % 2))
      (xor_digits-enough n m (suc a / 2) (b / 2) (omega arith) (omega arith))

zero-bit_xor : (b : ℕ) → bit_xor 0 b ≡ b
zero-bit_xor b = bit_xor-bitwise 0 b

differ-zero : (d : ℕ) → differ 0 d ≡ d
differ-zero d = refl

bit_xor_step : (a b : ℕ) → bit_xor a b ≡ bit_xor (a / 2) (b / 2) * 2 + differ (a % 2) (b % 2)
bit_xor_step zero b = omega (arith, zero-bit_xor b, zero-bit_xor (b / 2), differ-zero (b % 2))
bit_xor_step (suc a) b =
    bit_xor-bitwise (suc a) b
    ∙ ap (λ (d : ℕ). d * 2 + differ (suc a % 2) (b % 2))
        (xor_digits-enough a (suc a / 2) (suc a / 2) (b / 2) (omega arith) (omega arith)
          ∙ sym (bit_xor-bitwise (suc a / 2) (b / 2)))

differ_bit : (d e : ℕ) → d < 2 → e < 2 → differ d e < 2
differ_bit zero e h k = k
differ_bit (suc zero) zero h k = omega arith
differ_bit (suc zero) (suc zero) h k = omega arith
differ_bit (suc zero) (suc (suc e)) h k = absurd (omega arith)
differ_bit (suc (suc d)) e h k = absurd (omega arith)

differ_twice : (d e : ℕ) → d < 2 → e < 2 → differ (differ d e) e ≡ d
differ_twice zero zero h k = refl
differ_twice zero (suc zero) h k = refl
differ_twice (suc zero) zero h k = refl
differ_twice (suc zero) (suc zero) h k = refl
differ_twice d (suc (suc e)) h k = absurd (omega arith)
differ_twice (suc (suc d)) e h k = absurd (omega arith)

-- A word of `w` bits stays one.
pub bit_xor-lt : (w a b : ℕ) → a < 2 ^ w → b < 2 ^ w → bit_xor a b < 2 ^ w
bit_xor-lt zero zero zero h k = omega arith
bit_xor-lt zero (suc a) b h k = absurd (omega arith)
bit_xor-lt zero a (suc b) h k = absurd (omega arith)
bit_xor-lt (suc w) a b h k = ground (
  arith,
  pow-suc 2 w,
  bit_xor_step a b,
  bit_xor-lt w (a / 2) (b / 2) (omega (arith, pow-suc 2 w)) (omega (arith, pow-suc 2 w)),
  differ_bit (a % 2) (b % 2) (omega arith) (omega arith),
)

-- The same key twice gives the word back.
pub bit_xor_twice : (w a b : ℕ) → a < 2 ^ w → b < 2 ^ w → bit_xor (bit_xor a b) b ≡ a
bit_xor_twice zero zero zero h k = refl
bit_xor_twice zero (suc a) b h k = absurd (omega arith)
bit_xor_twice zero a (suc b) h k = absurd (omega arith)
bit_xor_twice (suc w) a b h k =
    let low : differ (a % 2) (b % 2) < 2 = differ_bit (a % 2) (b % 2) (omega arith) (omega arith) in
    let high : bit_xor a b / 2 ≡ bit_xor (a / 2) (b / 2) = omega (arith, bit_xor_step a b) in
    let digit : bit_xor a b % 2 ≡ differ (a % 2) (b % 2) = omega (arith, bit_xor_step a b) in
    let ih =
      bit_xor_twice w (a / 2) (b / 2) (omega (arith, pow-suc 2 w)) (omega (arith, pow-suc 2 w)) in
    let again = differ_twice (a % 2) (b % 2) (omega arith) (omega arith) in
    bit_xor_step (bit_xor a b) b ∙ rw (high, digit, ih, again) (omega arith)
