-- ===== src/Stun/Attribute/PasswordAlgorithms.antt =====
-- media/stun-types/src/attributes/password_algs.rs.
pub mod Parameters
use ezk.Common.{
  ℕ, zero, suc, ◌+◌, ◌^◌, List, [], ◌∷◌, ◌++◌, Option, none, some, length, take, replicate, ltb,
  if◌then◌else◌,
}
use ezk.Common.BufMut.{BufMut}
use ezk.Common.Bytes.{ReadBytes}
use ezk.Common.Result.{Result, ok, err, ◌>>=◌}
use ezk.Stun.Header.{Error, invalid_data, padding}
use ezk.Stun.Message.{get_value, read_word}
use ezk.Stun.Builder.{MessageBuilder}
use ezk.Stun.Attribute.{Attribute, u16_try_from}

-- An algorithm and its parameters.
abbrev pub Algorithm : Type 0
Algorithm = ℕ × List ℕ

-- What follows the two words: the parameters are a slice of it, and it is not advanced.
abbrev pub params_of : ℕ → List ℕ → Result Error (List ℕ)
params_of n value =
    if ltb (length value) n then err (invalid_data "invalid algorithm len") else ok (take n value)

-- The loop of `PasswordAlgorithms::decode`; a round takes four bytes.
unfoldable pub read_algorithms : ReadBytes → ℕ → List ℕ → Result Error (List Algorithm)
read_algorithms rd zero value = ok []
read_algorithms rd (suc fuel) [] = ok []
read_algorithms rd (suc fuel) (b ∷ bs) = do
  (alg, after_alg) ← read_word rd 2 (b ∷ bs)
  (n, value) ← read_word rd 2 after_alg
  params ← params_of n value
  more ← read_algorithms rd fuel value
  ok ((alg, params) ∷ more)

unfoldable pub put_algorithm : BufMut → Algorithm → List ℕ → List ℕ
unfolding padding
put_algorithm buf (alg, params) b =
    (buf.put_word 2 (buf.put_word 2 b alg) (length params) ++ params)
    ++ replicate (padding (length params)) 0

-- `none` is a length of parameters that does not fit 16 bits.
unfoldable pub put_algorithms : BufMut → List Algorithm → List ℕ → Option (List ℕ)
unfolding put_algorithm
put_algorithms buf [] b = some b
put_algorithms buf (a ∷ algorithms) b =
    let more = put_algorithms buf algorithms (put_algorithm buf a b) in
    if ltb (length a.1) (2 ^ 16) then more else none

unfoldable pub algorithms_len : List Algorithm → ℕ
unfolding padding
algorithms_len [] = 0
algorithms_len (a ∷ algorithms) = 4 + length a.1 + padding (length a.1) + algorithms_len algorithms

abbrev pub with_buffer : MessageBuilder → Option (List ℕ) → Option MessageBuilder
with_buffer b none = none
with_buffer b (some bytes) = some (record b { buffer = bytes })

unfoldable pub password_algorithms : ReadBytes → BufMut → Attribute (Unit {0}) (List Algorithm)
unfolding get_value read_algorithms put_algorithms algorithms_len
password_algorithms rd buf = record {
  attr_type = 0x8002;
  decode = λ ctx msg span.
      let value = get_value span msg.buffer in (read_algorithms rd (length value) value, msg);
  encode = λ ctx algorithms b. with_buffer b (put_algorithms buf algorithms b.buffer);
  encode_len = λ algorithms. u16_try_from (algorithms_len algorithms);
}

unfoldable pub read_algorithm : ReadBytes → List ℕ → Result Error Algorithm
read_algorithm rd value = do
  (alg, after_alg) ← read_word rd 2 value
  (n, rest) ← read_word rd 2 after_alg
  params ← params_of n rest
  ok (alg, params)

unfoldable pub password_algorithm : ReadBytes → BufMut → Attribute (Unit {0}) Algorithm
unfolding get_value read_algorithm put_algorithms padding
password_algorithm rd buf = record {
  attr_type = 0x001D;
  decode = λ ctx msg span. (read_algorithm rd (get_value span msg.buffer), msg);
  encode = λ ctx a b. with_buffer b (put_algorithms buf (a ∷ []) b.buffer);
  encode_len = λ a. u16_try_from (4 + length a.1 + padding (length a.1));
}
