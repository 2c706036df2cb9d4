-- ===== src/Stun/Builder.antt =====
-- media/stun-types/src/builder.rs: a message that is written. The writing methods of the crate
-- `bytes` are the parameter `buf`; `none` is a panic.

use ezk.Common.{
  ℕ, ◌+◌, ◌-◌, ◌%◌, ◌^◌, List, [], ◌++◌, Option, none, some, Bool, false, length, drop, leb, ltb,
  ◌&&◌, if◌then◌else◌,
}
use ezk.Common.BufMut.{BufMut, to_be_bytes}
use ezk.Common.Bytes.{from_be_bytes}
use ezk.Stun.Header.{
  padding, cookie, stun_header_length, MessageHead, set_typ, Class, Method, set_class_bits,
  set_method_bits,
}
use ezk.Stun.Header

pub record MessageBuilder : Type 0 where
  pub head : MessageHead
  pub transaction_id : List ℕ
  pub padding_in_value_len : Bool
  pub buffer : List ℕ

-- The four bytes of the head at the front of the buffer; an index beyond it panics.
unfoldable pub set_len : MessageBuilder → ℕ → Option MessageBuilder
unfolding Header.set_len to_be_bytes
set_len b n =
    if leb 4 (length b.buffer)
    then some (record b {
      head = Header.set_len b.head n;
      buffer = to_be_bytes 4 (Header.set_len b.head n) ++ drop 4 b.buffer;
    })
    else none

unfoldable pub id : MessageBuilder → ℕ
unfolding to_be_bytes from_be_bytes
id b = from_be_bytes (to_be_bytes 4 cookie ++ b.transaction_id)

-- The length that is written must fit 16 bits.
unfoldable pub finish : MessageBuilder → Option (List ℕ)
unfolding set_len
finish b =
    if leb stun_header_length (length b.buffer)
      && ltb (length b.buffer - stun_header_length) (2 ^ 16)
    then elim (set_len b (length b.buffer - stun_header_length)) [
      | none ↦ none
      | some b' ↦ some b'.buffer
    ]
    else none

module _ (buf : BufMut) where
  unfoldable pub new : Class → Method → List ℕ → MessageBuilder
  unfolding set_typ set_class_bits set_method_bits
  new class method transaction_id =
      let head = set_typ 0 (set_class_bits class (set_method_bits method 0)) in
      record {
        head = head;
        transaction_id = transaction_id;
        padding_in_value_len = false;
        buffer = buf.put_slice (buf.put_word 4 (buf.put_word 4 [] head) cookie) transaction_id;
      }

  -- What `add_attr_with` writes before the value: the type, and the length with its padding or
  -- without.
  unfoldable pub put_attribute_header : MessageBuilder → ℕ → ℕ → MessageBuilder
  unfolding padding
  put_attribute_header b attr_typ enc_len =
      let value_len =
        if b.padding_in_value_len then (enc_len + padding enc_len) % 2 ^ 16 else enc_len in
      record b { buffer = buf.put_word 2 (buf.put_word 2 b.buffer attr_typ) value_len }
