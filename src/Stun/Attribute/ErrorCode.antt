-- ===== src/Stun/Attribute/ErrorCode.antt =====
-- media/stun-types/src/attributes/error_code.rs.
use ezk.Common.{
  ℕ, ◌+◌, ◌*◌, ◌/◌, ◌%◌, ◌^◌, ◌<◌, ◌≡◌, arith, List, [], ◌∷◌, ◌++◌, Option, none, some, Bool, true,
  false, length, ltb, if◌then◌else◌,
}
use ezk.Common.BufMut.{BufMut}
use ezk.Common.Bytes.{ReadBytes}
use ezk.Common.Result.{Result, ok, err}
use ezk.Stun.Header.{Error, invalid_data, utf8}
use ezk.Stun.Message.{get_value}
use ezk.Stun.Attribute.{Attribute, u16_try_from}

-- `ErrorCodeHead`: number in the bits 7 to 0, class in 11 to 8.
unfoldable pub number : ℕ → ℕ
number head = head % 2 ^ 8

unfoldable pub class : ℕ → ℕ
class head = head / 2 ^ 8 % 2 ^ 4

unfoldable pub set_number : ℕ → ℕ → ℕ
set_number head v = head / 2 ^ 8 * 2 ^ 8 + v % 2 ^ 8

unfoldable pub set_class : ℕ → ℕ → ℕ
set_class head v = head / 2 ^ 12 * 2 ^ 12 + v % 2 ^ 4 * 2 ^ 8 + head % 2 ^ 8

pub record ErrorCode : Type 0 where
  pub code : ℕ
  pub reason : List ℕ

unfoldable pub head_of : ℕ → ℕ
unfolding set_number set_class
head_of code = set_number (set_class 0 (code / 100)) (code % 100)

unfoldable pub code_of : ℕ → ℕ
unfolding number class
code_of head = class head * 100 + number head

abbrev is_empty : List ℕ → Bool
is_empty [] = true
is_empty (b ∷ bs) = false

-- The word is there, since the length was tested: `unwrap` does not meet `none`.
abbrev read_error : (List ℕ → Bool) → Option (ℕ × List ℕ) → Result Error ErrorCode
unfolding code_of
read_error is_utf8 none = err (invalid_data "error code must be at least 4 bytes")
read_error is_utf8 (some (head, reason)) =
    if is_empty reason
    then ok (record { code = code_of head; reason = [] })
    else if is_utf8 reason
    then ok (record { code = code_of head; reason = reason })
    else err utf8

-- The length is tested before the head is read.
unfoldable pub error_code : (List ℕ → Bool) → ReadBytes → BufMut → Attribute (Unit {0}) ErrorCode
unfolding get_value head_of code_of
error_code is_utf8 rd buf = record {
  attr_type = 0x0009;
  decode = λ ctx msg span.
      let value = get_value span msg.buffer in
      (
        (if ltb (length value) 4
            then err (invalid_data "error code must be at least 4 bytes")
            else read_error is_utf8 (rd.read_word 4 value)),
        msg,
      );
  encode =
      λ ctx e b. some (record b { buffer = buf.put_word 4 b.buffer (head_of e.code) ++ e.reason });
  encode_len = λ e. u16_try_from (4 + length e.reason);
}

-- Four bits hold the hundreds.
code_of-head_of : (code : ℕ) → code < 1600 → code_of (head_of code) ≡ code
unfolding code_of head_of number class set_number set_class
code_of-head_of code h = omega arith

pub head_of-lt : (code : ℕ) → head_of code < 2 ^ 12
unfolding head_of set_number set_class
head_of-lt code = omega arith
