-- ===== src/Common/Bits.antt =====
-- Masks and shifts of small words as arithmetic; each law is a table that is checked by evaluation.
use Prim.Native.Nat.{ℕ, zero, suc, ◌+◌, ◌*◌, ◌/◌, ◌%◌, ◌<◌, bit_and, bit_or}
use mathlib.Core.Path.{◌≡◌, refl}
use mathlib.Core.Bool.{Bool, true, ◌&&◌}
use native.Mathlib.Omega.{arith}
use ezk.Common.Compare.{◌==◌, ==_iff}

-- Whether `f` and `g` have one value at each of the `count` numbers from 0 on.
agrees : (f g : ℕ → ℕ) (count : ℕ) → Bool
agrees f g zero = true
agrees f g (suc last) = (f last == g last) && agrees f g last

table : (f g : ℕ → ℕ) (count at : ℕ) → agrees f g count ≡ true → at < count → f at ≡ g at
unfolding agrees
table f g zero at checked below = ground arith
table f g (suc last) at checked below = ground (arith, table f g last at, ==_iff (f last) (g last))

pub low_nibble : (b : ℕ) → b < 256 → bit_and b 0x0f ≡ b % 16
unfolding agrees
low_nibble b h = table (λ i. bit_and i 0x0f) (λ i. i % 16) 256 b refl h

pub high_nibble : (b : ℕ) → b < 256 → bit_and b 0xf0 / 16 ≡ b / 16
unfolding agrees
high_nibble b h = table (λ i. bit_and i 0xf0 / 16) (λ i. i / 16) 256 b refl h

-- The table runs over both nibbles at once.
pub join_nibbles : (hi lo : ℕ) → hi < 16 → lo < 16 → bit_or lo (hi * 16) ≡ hi * 16 + lo
unfolding agrees
join_nibbles hi lo hh hl = unpacked (table join sum 256 (hi * 16 + lo) refl (omega arith))
  where
    join : ℕ → ℕ
    join i = bit_or (i % 16) (i / 16 * 16)

    sum : ℕ → ℕ
    sum i = i / 16 * 16 + i % 16

    unpacked : join (hi * 16 + lo) ≡ sum (hi * 16 + lo) → bit_or lo (hi * 16) ≡ hi * 16 + lo
    unpacked e =
        let lo' : (hi * 16 + lo) % 16 ≡ lo = omega arith in
        let hi' : (hi * 16 + lo) / 16 ≡ hi = omega arith in rw (lo', hi') at e
