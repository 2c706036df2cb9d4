-- ===== src/Common/Bytes.antt =====
-- Words as bytes in network order: the conversions of the standard library, and the reading
-- methods of the crate `byteorder` as its documentation describes them.
use Prim.Native.Nat.{ℕ, zero, suc, ◌+◌, ◌*◌, ◌/◌, ◌%◌, ◌^◌, ◌<◌}
use mathlib.Core.Path.{◌≡◌, refl, ap, sym, ◌∙◌}
use mathlib.Core.Option.{Option, none, some}
use mathlib.Core.List.{List, [], ◌∷◌, ◌++◌, append-nil}
use native.Mathlib.Nat.{
  pow-suc, one-le-pow, mul-add-div_right, div-eq_of_lt, div-lt_iff_lt-mul, div-add-mod', mod-lt,
}
use native.Mathlib.Omega.{arith}
use ezk.Common.Compare.{ltb, if◌then◌else◌}
use ezk.Common.Lists.{length, drop, take, All, take-append, drop-append, length-append}
use ezk.Common.BufMut.{to_be_bytes}

abbrev pub IsByte : ℕ → Type 0
IsByte b = b < 256

-- `from_be_bytes` of the standard library.
unfoldable pub from_be_bytes : List ℕ → ℕ
from_be_bytes [] = 0
from_be_bytes (b ∷ bs) = b * 256 ^ length bs + from_be_bytes bs

pub length-to_be_bytes : (n v : ℕ) → length (to_be_bytes n v) ≡ n
unfolding to_be_bytes
length-to_be_bytes zero v = refl
length-to_be_bytes (suc n) v = ap suc (length-to_be_bytes n v)

pub from_be_bytes-lt : (bs : List ℕ) → All IsByte bs → from_be_bytes bs < 256 ^ length bs
unfolding from_be_bytes
from_be_bytes-lt [] h = omega arith
from_be_bytes-lt (b ∷ bs) h = grind (arith, pow-suc 256 (length bs), from_be_bytes-lt bs h.1)

pow_pos : (n : ℕ) → 0 < 256 ^ n
pow_pos n = one-le-pow n 256 (omega arith)

-- What lies above a word of `n` bytes is cut off.
to_be_bytes-high : (n a r : ℕ) → to_be_bytes n (a * 256 ^ n + r) ≡ to_be_bytes n r
unfolding to_be_bytes
to_be_bytes-high zero a r = refl
to_be_bytes-high (suc n) a r =
    let shift : a * 256 ^ suc n ≡ a * 256 * 256 ^ n =
      omega (arith, ap (λ (t : ℕ). a * t) (pow-suc 256 n)) in
    let top : (a * 256 * 256 ^ n + r) / 256 ^ n ≡ a * 256 + r / 256 ^ n =
      mul-add-div_right (pow_pos n) (a * 256) r in
    let digit : (a * 256 + r / 256 ^ n) % 256 ≡ r / 256 ^ n % 256 = omega arith in
    rw (shift, top, digit, to_be_bytes-high n (a * 256) r)

pub to_be_bytes-from_be_bytes :
    (bs : List ℕ) → All IsByte bs → to_be_bytes (length bs) (from_be_bytes bs) ≡ bs
unfolding to_be_bytes from_be_bytes
to_be_bytes-from_be_bytes [] h = refl
to_be_bytes-from_be_bytes (b ∷ bs) h =
    let top : (b * 256 ^ length bs + from_be_bytes bs) / 256 ^ length bs
        ≡ b + from_be_bytes bs / 256 ^ length bs =
      mul-add-div_right (pow_pos (length bs)) b (from_be_bytes bs) in
    let none_left : from_be_bytes bs / 256 ^ length bs ≡ 0 =
      div-eq_of_lt (from_be_bytes-lt bs h.1) in
    let digit : (b + 0) % 256 ≡ b = omega (arith, h.0) in
    rw (
      top,
      none_left,
      digit,
      to_be_bytes-high (length bs) b (from_be_bytes bs),
      to_be_bytes-from_be_bytes bs h.1,
    )

pub from_be_bytes-to_be_bytes : (n v : ℕ) → v < 256 ^ n → from_be_bytes (to_be_bytes n v) ≡ v
unfolding to_be_bytes from_be_bytes
from_be_bytes-to_be_bytes zero v h = omega arith
from_be_bytes-to_be_bytes (suc n) v h =
    let top : v / 256 ^ n < 256 =
      (div-lt_iff_lt-mul (pow_pos n)).1 (omega (arith, pow-suc 256 n)) in
    let digit : v / 256 ^ n % 256 ≡ v / 256 ^ n = omega arith in
    let split : v ≡ v / 256 ^ n * 256 ^ n + v % 256 ^ n = sym (div-add-mod' v (256 ^ n)) in
    let low : from_be_bytes (to_be_bytes n v) ≡ v % 256 ^ n =
      ap (λ w. from_be_bytes (to_be_bytes n w)) split
      ∙ ap from_be_bytes (to_be_bytes-high n (v / 256 ^ n) (v % 256 ^ n))
      ∙ from_be_bytes-to_be_bytes n (v % 256 ^ n) (mod-lt v (pow_pos n)) in
    rw (digit, length-to_be_bytes n v, low) (sym split)

-- `read_u8`, `read_u16`, `read_u32`, `read_u64` and `read_u128` in network order, from a slice or
-- a cursor: the word of so many bytes and what is left; `none` is `UnexpectedEof`.
pub record ReadBytes : Type 0 where
  pub read_word : (n : ℕ) → List ℕ → Option (ℕ × List ℕ)
  pub read_word-be :
      (n v : ℕ) (rest : List ℕ)
      → v < 256 ^ n
      → read_word n (to_be_bytes n v ++ rest) ≡ some (v, rest)
  pub read_word_eof : (n : ℕ) (bytes : List ℕ) → length bytes < n → read_word n bytes ≡ none

-- A word that is all there is.
pub read_word-whole :
    (rd : ReadBytes) (n v : ℕ) → v < 256 ^ n → rd.read_word n (to_be_bytes n v) ≡ some (v, [])
read_word-whole rd n v h =
    ap (rd.read_word n) (sym (append-nil (to_be_bytes n v))) ∙ rd.read_word-be n v [] h

abbrev read_slice : ℕ → List ℕ → Option (ℕ × List ℕ)
unfolding from_be_bytes
read_slice n bytes =
    if ltb (length bytes) n then none else some (from_be_bytes (take n bytes), drop n bytes)

read_slice-be :
    (n v : ℕ) (rest : List ℕ)
    → v < 256 ^ n
    → read_slice n (to_be_bytes n v ++ rest) ≡ some (v, rest)
unfolding from_be_bytes
read_slice-be n v rest h =
    let bytes = to_be_bytes n v in
    let head : take n (bytes ++ rest) ≡ bytes =
      ap (λ k. take k (bytes ++ rest)) (sym (length-to_be_bytes n v)) ∙ take-append bytes rest in
    let tail : drop n (bytes ++ rest) ≡ rest =
      ap (λ k. drop k (bytes ++ rest)) (sym (length-to_be_bytes n v)) ∙ drop-append bytes rest in
    ground (
      arith,
      head,
      tail,
      length-append bytes rest,
      length-to_be_bytes n v,
      from_be_bytes-to_be_bytes n v h,
    )

read_slice_eof : (n : ℕ) (bytes : List ℕ) → length bytes < n → read_slice n bytes ≡ none
unfolding from_be_bytes
read_slice_eof n bytes h = ground arith

-- The methods as the documentation describes them.
unfoldable pub reader : ReadBytes
unfolding read_slice-be read_slice_eof from_be_bytes
reader = record {
  read_word = read_slice;
  read_word-be = read_slice-be;
  read_word_eof = read_slice_eof;
}
