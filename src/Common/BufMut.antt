-- ===== src/Common/BufMut.antt =====
-- The crate `bytes` as the sources use it: the writing methods of `BufMut` for a byte vector.
-- What they append is what that crate's documentation says.
use Prim.Native.Nat.{ℕ, ◌/◌, ◌%◌, ◌<◌, ◌^◌, zero, suc}
use mathlib.Core.Path.{◌≡◌, refl}
use mathlib.Core.List.{List, [], ◌∷◌, ◌++◌}
use ezk.Common.Lists.{replicate}

-- `to_be_bytes` of the standard library, for a word of `n` bytes.
unfoldable pub to_be_bytes : ℕ → ℕ → List ℕ
to_be_bytes zero v = []
to_be_bytes (suc n) v = v / 256 ^ n % 256 ∷ to_be_bytes n v

pub record BufMut : Type 0 where
  pub put_slice : List ℕ → List ℕ → List ℕ
  -- `put_u8`, `put_u16`, `put_u32` and `put_u128`: a word of 1, 2, 4 or 16 bytes.
  pub put_word : (n : ℕ) → List ℕ → ℕ → List ℕ
  pub put_bytes : List ℕ → ℕ → ℕ → List ℕ
  pub put_slice-append : (b s : List ℕ) → put_slice b s ≡ b ++ s
  pub put_word-append :
      (n : ℕ) (b : List ℕ) (v : ℕ) → v < 256 ^ n → put_word n b v ≡ b ++ to_be_bytes n v
  pub put_bytes-append : (b : List ℕ) (v n : ℕ) → v < 256 → put_bytes b v n ≡ b ++ replicate n v

-- The methods as the documentation describes them.
unfoldable pub vec : BufMut
unfolding to_be_bytes
vec = record {
  put_slice = ◌++◌;
  put_word = λ n b v. b ++ to_be_bytes n v;
  put_bytes = λ b v n. b ++ replicate n v;
  put_slice-append = λ b s. refl;
  put_word-append = λ n b v h. refl;
  put_bytes-append = λ b v n h. refl;
}
