-- ===== src/Stun/Attribute/Codes.antt =====
-- What an attribute of media/stun-types/src/attributes owes to the builder and to the parser: it
-- writes some bytes, says how many, and reads its value back from them.
use mathlib.Core.List.{append-nil, append_assoc}
use ezk.Common.{
  ℕ, ◌+◌, ◌%◌, ◌^◌, ◌<◌, ◌≡◌, refl, ◌∙◌, ap, List, [], ◌++◌, some, false, true, Bool, length,
  replicate, arith, if◌then◌else◌,
}
use ezk.Common.BufMut.{BufMut, to_be_bytes}
use ezk.Common.Result.{ok}
use ezk.Stun.Header.{padding}
use ezk.Stun.Message.{AttrSpan, Message, get_value}
use ezk.Stun.Builder
use ezk.Stun.Builder.{MessageBuilder, put_attribute_header}
use ezk.Stun.Attribute.{
  Attribute, pad, add_measured, add_attr_with, bytes_attribute, string_attribute,
}

-- `id` is the identifier of the message, which the XOR addresses use.
pub record Codes {Ctx A : Type 0} (att : Attribute Ctx A) (id : ℕ) (ctx : Ctx) (a : A)
    (bytes : List ℕ) : Type 0 where
  pub written :
      (b : MessageBuilder)
      → Builder.id b ≡ id
      → att.encode ctx a b ≡ some (record b { buffer = b.buffer ++ bytes })
  pub measured : att.encode_len a ≡ some (length bytes)
  pub read :
      (msg : Message) (span : AttrSpan)
      → msg.id ≡ id
      → get_value span msg.buffer ≡ bytes
      → (att.decode ctx msg span).0 ≡ ok a

-- An attribute on the wire, with what follows it.
abbrev pub framed : ℕ → List ℕ → List ℕ → List ℕ
framed t value rest =
    to_be_bytes 2 t
    ++ (to_be_bytes 2 (length value) ++ (value ++ (replicate (padding (length value)) 0 ++ rest)))

pub put_attribute_header_lem :
    (buf : BufMut) (b : MessageBuilder) (t n : ℕ)
    → t < 2 ^ 16
    → n < 2 ^ 16
    → b.padding_in_value_len ≡ false
    → put_attribute_header buf b t n
      ≡ record b { buffer = b.buffer ++ (to_be_bytes 2 t ++ to_be_bytes 2 n) }
unfolding put_attribute_header
put_attribute_header_lem buf b t n ht hn plain =
    ap
      (λ p. record b {
        buffer =
            buf.put_word 2 (buf.put_word 2 b.buffer t) (if p then (n + padding n) % 2 ^ 16 else n);
      })
      plain
    ∙ ap (λ buffer. record b { buffer = buffer })
        (ap (λ front. buf.put_word 2 front n) (buf.put_word-append 2 b.buffer t ht)
          ∙ buf.put_word-append 2 (b.buffer ++ to_be_bytes 2 t) n hn
          ∙ append_assoc b.buffer (to_be_bytes 2 t) (to_be_bytes 2 n))

-- What is appended does not depend on what stands before it.
pub add_attr_with-framed :
    {Ctx A : Type 0} (buf : BufMut) (att : Attribute Ctx A) (id : ℕ) (ctx : Ctx) (a : A)
    (bytes : List ℕ) (b : MessageBuilder)
    → Codes att id ctx a bytes
    → Builder.id b ≡ id
    → b.padding_in_value_len ≡ false
    → att.attr_type < 2 ^ 16
    → length bytes < 2 ^ 16
    → add_attr_with buf att ctx a b
      ≡ some (record b { buffer = b.buffer ++ framed att.attr_type bytes [] })
unfolding add_attr_with Builder.id
add_attr_with-framed buf att id ctx a bytes b codes same plain ht hn =
    let n = length bytes in
    let header = to_be_bytes 2 att.attr_type ++ to_be_bytes 2 n in
    ap (add_measured buf att ctx a b) codes.measured
    ∙ ap (λ b'. pad n (att.encode ctx a b'))
        (put_attribute_header_lem buf b att.attr_type n ht hn plain)
    ∙ ap (pad n) (codes.written (record b { buffer = b.buffer ++ header }) same)
    ∙ ap (λ buffer. some (record b { buffer = buffer })) (simp (append_assoc, append-nil))

pub bytes_attribute-Codes :
    (t id : ℕ) (bytes : List ℕ)
    → length bytes < 2 ^ 16
    → Codes (bytes_attribute t) id tt bytes bytes
unfolding bytes_attribute
bytes_attribute-Codes t id bytes h = record {
  written = λ b same. refl;
  measured = ground arith;
  read = λ msg span same value. ap ok value;
}

string_attribute-Codes :
    (is_utf8 : List ℕ → Bool) (t id : ℕ) (text : List ℕ)
    → length text < 2 ^ 16
    → is_utf8 text ≡ true
    → Codes (string_attribute is_utf8 t) id tt text text
unfolding string_attribute
string_attribute-Codes is_utf8 t id text h utf8 = record {
  written = λ b same. refl;
  measured = ground arith;
  read = λ msg span same value. rw (value, utf8) refl;
}
