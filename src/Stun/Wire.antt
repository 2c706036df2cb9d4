-- ===== src/Stun/Wire.antt =====
-- Messages that MessageBuilder of media/stun-types/src/builder.rs makes, on the wire, and the spans
-- that Message::parse finds in them.
pub mod Parsed
pub mod RoundTrip
pub mod Found
pub mod Carried
pub mod Signed
pub mod Signing
use mathlib.Core.List.{append-nil, append_assoc}
use ezk.Common.{
  ℕ, ◌+◌, ◌^◌, ◌<◌, ◌≡◌, refl, ◌∙◌, ap, sym, List, [], ◌∷◌, ◌++◌, Option, some, none, false, length,
  replicate, All, arith, length-append, length-replicate,
}
use ezk.Common.BufMut.{BufMut, to_be_bytes}
use ezk.Common.Bytes.{length-to_be_bytes}
use ezk.Stun.Header.{padding}
use ezk.Stun.Message.{AttrSpan}
use ezk.Stun.Builder
use ezk.Stun.Builder.{MessageBuilder}
use ezk.Stun.Attribute.{add_attr_with, bytes_attribute}
use ezk.Stun.Attribute.Codes.{framed, add_attr_with-framed, bytes_attribute-Codes}

-- A type and a value.
abbrev pub Item : Type 0
Item = ℕ × List ℕ

pub record IsItem (item : Item) : Type 0 where
  pub typed : item.0 < 2 ^ 16
  pub short : length item.1 < 2 ^ 16

abbrev pub wire : List Item → List ℕ
wire [] = []
wire (item ∷ items) = framed item.0 item.1 (wire items)

-- Attributes that are added one after the other.
unfoldable pub add_all : BufMut → List Item → MessageBuilder → Option MessageBuilder
add_all buf [] b = some b
add_all buf (item ∷ items) b = elim (add_attr_with buf (bytes_attribute item.0) tt item.1 b) [
  | none ↦ none
  | some b' ↦ add_all buf items b'
]

pub framed-rest : (t : ℕ) (value rest : List ℕ) → framed t value rest ≡ framed t value [] ++ rest
framed-rest t value rest = simp (append_assoc, append-nil)

pub add_all-wire :
    (buf : BufMut) (items : List Item) (b : MessageBuilder)
    → All IsItem items
    → b.padding_in_value_len ≡ false
    → add_all buf items b ≡ some (record b { buffer = b.buffer ++ wire items })
unfolding add_all bytes_attribute
add_all-wire buf [] b h plain =
    ap (λ buffer. some (record b { buffer = buffer })) (sym (append-nil b.buffer))
add_all-wire buf (item ∷ items) b h plain =
    let added =
      add_attr_with-framed buf (bytes_attribute item.0) (Builder.id b) tt item.1 item.1 b
        (bytes_attribute-Codes item.0 (Builder.id b) item.1 h.0.short) refl plain h.0.typed
        h.0.short in
    rw (added, add_all)
      (add_all-wire buf items (record b { buffer = b.buffer ++ framed item.0 item.1 [] }) h.1 plain
        ∙ ap (λ buffer. some (record b { buffer = buffer }))
            (append_assoc b.buffer (framed item.0 item.1 []) (wire items)
              ∙ ap (λ rest. b.buffer ++ rest) (sym (framed-rest item.0 item.1 (wire items)))))

-- The spans of the items behind the first `position` bytes.
abbrev pub span_at : ℕ → Item → AttrSpan
span_at position item = record {
  begin = position + 4;
  end = position + 4 + length item.1;
  padding_end = position + 4 + length item.1 + padding (length item.1);
  attr_typ = item.0;
}

abbrev pub spans_of : ℕ → List Item → List AttrSpan
spans_of position [] = []
spans_of position (item ∷ items) =
    span_at position item ∷ spans_of (position + 4 + length item.1 + padding (length item.1)) items

pub length-framed :
    (t : ℕ) (value rest : List ℕ)
    → length (framed t value rest) ≡ 4 + length value + padding (length value) + length rest
length-framed t value rest = omega (
  arith,
  length-append (to_be_bytes 2 t)
      (to_be_bytes 2 (length value) ++ (value ++ (replicate (padding (length value)) 0 ++ rest))),
  length-append (to_be_bytes 2 (length value))
      (value ++ (replicate (padding (length value)) 0 ++ rest)),
  length-append value (replicate (padding (length value)) 0 ++ rest),
  length-append (replicate (padding (length value)) 0) rest,
  length-replicate {A = ℕ} (padding (length value)) 0,
  length-to_be_bytes 2 t,
  length-to_be_bytes 2 (length value),
)
