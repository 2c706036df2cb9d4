-- ===== src/Stun/Attribute.antt =====
-- media/stun-types/src/attributes/mod.rs: the trait of attributes, how a message is searched for one
-- (parse.rs) and how one is appended (builder.rs), and the attributes that are texts, bytes or
-- a list of types. A text is its bytes.
pub mod Codes
pub mod Addr
pub mod ErrorCode
pub mod PasswordAlgorithms
pub mod Words
pub mod Integrity
pub mod Fingerprint
use ezk.Common.{
  ℕ, zero, suc, ◌+◌, ◌*◌, ◌^◌, List, [], ◌∷◌, ◌++◌, Option, none, some, Bool, false, length,
  replicate, ltb, if◌then◌else◌,
}
use ezk.Common.BufMut.{BufMut}
use ezk.Common.Bytes.{ReadBytes}
use ezk.Common.Result.{Result, ok, err, ◌>>=◌}
use ezk.Stun.Header.{Error, utf8, padding}
use ezk.Stun.Message.{AttrSpan, Message, get_value, find_attribute, read_word}
use ezk.Stun.Builder.{MessageBuilder, put_attribute_header}

-- `decode` may change the message for a while, and answers it too. `none` of `encode` is a panic,
-- and of `encode_len` a length that does not fit 16 bits.
pub record Attribute (Ctx A : Type 0) : Type 0 where
  pub attr_type : ℕ
  pub decode : Ctx → Message → AttrSpan → Result Error A × Message
  pub encode : Ctx → A → MessageBuilder → Option MessageBuilder
  pub encode_len : A → Option ℕ

abbrev pub decode_found :
    {Ctx A : Type 0}
    → Attribute Ctx A
    → Ctx
    → Message
    → Option AttrSpan
    → Option (Result Error A) × Message
decode_found att ctx msg none = (none, msg)
decode_found att ctx msg (some span) =
    let (result, after) = att.decode ctx msg span in (some result, after)

-- Whether a message has the attribute at all, what its decoding gives, and the message.
unfoldable pub attribute_with :
    {Ctx A : Type 0} → Attribute Ctx A → Ctx → Message → Option (Result Error A) × Message
unfolding find_attribute
attribute_with att ctx msg =
    decode_found att ctx msg (find_attribute att.attr_type false msg.attributes)

abbrev pub pad : ℕ → Option MessageBuilder → Option MessageBuilder
unfolding padding
pad enc_len none = none
pad enc_len (some b) = some (record b { buffer = b.buffer ++ replicate (padding enc_len) 0 })

abbrev pub add_measured :
    {Ctx A : Type 0}
    → BufMut
    → Attribute Ctx A
    → Ctx
    → A
    → MessageBuilder
    → Option ℕ
    → Option MessageBuilder
unfolding put_attribute_header padding
add_measured buf att ctx a b none = none
add_measured buf att ctx a b (some enc_len) =
    pad enc_len (att.encode ctx a (put_attribute_header buf b att.attr_type enc_len))

unfoldable pub add_attr_with :
    {Ctx A : Type 0} → BufMut → Attribute Ctx A → Ctx → A → MessageBuilder → Option MessageBuilder
unfolding put_attribute_header padding
add_attr_with buf att ctx a b = add_measured buf att ctx a b (att.encode_len a)

-- `u16::try_from`.
abbrev pub u16_try_from : ℕ → Option ℕ
u16_try_from n = if ltb n (2 ^ 16) then some n else none

abbrev pub extend : List ℕ → MessageBuilder → Option MessageBuilder
extend bytes b = some (record b { buffer = b.buffer ++ bytes })

unfoldable pub bytes_attribute : ℕ → Attribute (Unit {0}) (List ℕ)
unfolding get_value
bytes_attribute t = record {
  attr_type = t;
  decode = λ ctx msg span. (ok (get_value span msg.buffer), msg);
  encode = λ ctx bytes b. extend bytes b;
  encode_len = λ bytes. u16_try_from (length bytes);
}

-- `is_utf8` says which bytes `from_utf8` of the standard library accepts.
unfoldable pub string_attribute : (List ℕ → Bool) → ℕ → Attribute (Unit {0}) (List ℕ)
unfolding get_value
string_attribute is_utf8 t = record {
  attr_type = t;
  decode = λ ctx msg span.
      let value = get_value span msg.buffer in
      ((if is_utf8 value then ok value else err utf8), msg);
  encode = λ ctx bytes b. extend bytes b;
  encode_len = λ bytes. u16_try_from (length bytes);
}

-- The loop of `UnknownAttributes::decode`; a round takes two bytes.
unfoldable pub read_types : ReadBytes → ℕ → List ℕ → Result Error (List ℕ)
read_types rd zero value = ok []
read_types rd (suc fuel) [] = ok []
read_types rd (suc fuel) (b ∷ bs) =
    read_word rd 2 (b ∷ bs) >>= λ (t, rest). (read_types rd fuel rest >>= λ types. ok (t ∷ types))

unfoldable pub put_types : BufMut → List ℕ → List ℕ → List ℕ
put_types buf b [] = b
put_types buf b (t ∷ types) = put_types buf (buf.put_word 2 b t) types

unfoldable pub unknown_attributes : ReadBytes → BufMut → Attribute (Unit {0}) (List ℕ)
unfolding get_value read_types put_types
unknown_attributes rd buf = record {
  attr_type = 0x000A;
  decode = λ ctx msg span.
      let value = get_value span msg.buffer in (read_types rd (length value) value, msg);
  encode = λ ctx types b. some (record b { buffer = put_types buf b.buffer types });
  encode_len = λ types. u16_try_from (length types * 2);
}
