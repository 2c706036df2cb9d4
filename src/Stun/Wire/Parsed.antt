-- ===== src/Stun/Wire/Parsed.antt =====
-- Message::parse of media/stun-types/src/parse.rs on attributes that follow one another.
use mathlib.Core.List.{append_assoc}
use ezk.Common.{
  ℕ, zero, suc, ◌+◌, ◌-◌, ◌≤◌, ◌≡◌, refl, ◌∙◌, ap, sym, List, [], ◌∷◌, ◌++◌, false, length, map,
  replicate, drop, take, ltb, All, arith, length-append, length-replicate, take-append, drop-append,
}
use ezk.Common.BufMut.{to_be_bytes}
use ezk.Common.Bytes.{ReadBytes, length-to_be_bytes}
use ezk.Common.Result.{ok}
use ezk.Stun.Header.{padding}
use ezk.Stun.Message.{get_value, parse_attributes, prepend}
use ezk.Stun.Attribute.Codes.{framed}
use ezk.Stun.Wire.{Item, IsItem, wire, span_at, spans_of, framed-rest, length-framed}

drop_value :
    (value rest : List ℕ) (n : ℕ)
    → drop (length value + n) (value ++ (replicate n 0 ++ rest)) ≡ rest
drop_value value rest n =
    ap (λ k. drop k (value ++ (replicate n 0 ++ rest)))
      (omega (arith, length-append value (replicate n 0), length-replicate {A = ℕ} n 0))
    ∙ ap (drop (length (value ++ replicate n 0))) (sym (append_assoc value (replicate n 0) rest))
    ∙ drop-append (value ++ replicate n 0) rest

not_beyond : (total n : ℕ) → n ≤ total → ltb total n ≡ false
not_beyond total n h = ground arith

parse_attributes-framed :
    (rd : ReadBytes) (fuel total position : ℕ) (item : Item) (rest : List ℕ)
    → IsItem item
    → position + length (framed item.0 item.1 rest) ≤ total
    → parse_attributes rd (suc fuel) total position (framed item.0 item.1 rest)
      ≡ prepend (span_at position item) (
          parse_attributes rd fuel total
            (position + 4 + length item.1 + padding (length item.1))
            rest)
unfolding parse_attributes to_be_bytes
parse_attributes-framed rd fuel total position item rest h fits =
    let n = length item.1 in
    let tail = item.1 ++ (replicate (padding n) 0 ++ rest) in
    rw (rd.read_word-be 2 item.0 (to_be_bytes 2 n ++ tail) h.typed) (
      rw (rd.read_word-be 2 n tail h.short) (
        rw
          (
            drop_value item.1 rest (padding n),
            not_beyond total (position + 4 + n + padding n)
                (omega (arith, length-framed item.0 item.1 rest)),
          )
          refl))

parse_nothing :
    (rd : ReadBytes) (fuel total position : ℕ) → parse_attributes rd fuel total position [] ≡ ok []
unfolding parse_attributes
parse_nothing rd zero total position = refl
parse_nothing rd (suc fuel) total position = refl

pub parse_attributes-wire :
    (rd : ReadBytes) (fuel total position : ℕ) (items : List Item)
    → All IsItem items
    → position + length (wire items) ≡ total
    → length (wire items) ≤ fuel
    → parse_attributes rd fuel total position (wire items) ≡ ok (spans_of position items)
parse_attributes-wire rd fuel total position [] h whole enough =
    parse_nothing rd fuel total position
parse_attributes-wire rd zero total position (item ∷ items) h whole enough =
    absurd (omega (arith, length-framed item.0 item.1 (wire items)))
parse_attributes-wire rd (suc fuel) total position (item ∷ items) h whole enough =
    let size = length-framed item.0 item.1 (wire items) in
    parse_attributes-framed rd fuel total position item (wire items) h.0 (omega arith)
    ∙ ap (prepend (span_at position item)) (
        parse_attributes-wire rd fuel total (position + 4 + length item.1 + padding (length item.1))
          items h.1 (omega (arith, size)) (omega (arith, size)))

slice :
    (front value rest : List ℕ)
    → take (length value) (drop (length front) (front ++ (value ++ rest))) ≡ value
slice front value rest = rw drop-append (take-append value rest)

-- A span of the message shows the bytes of its item.
pub get_value-span_at :
    (front : List ℕ) (item : Item) (rest : List ℕ)
    → get_value (span_at (length front) item) (front ++ framed item.0 item.1 rest) ≡ item.1
unfolding get_value
get_value-span_at front item rest =
    let n = length item.1 in
    let header = to_be_bytes 2 item.0 ++ to_be_bytes 2 n in
    let behind = replicate (padding n) 0 ++ rest in
    let whole : front ++ framed item.0 item.1 rest ≡ (front ++ header) ++ (item.1 ++ behind) =
      simp append_assoc in
    let begin : length front + 4 ≡ length (front ++ header) = omega (
      arith,
      length-append front header,
      length-append (to_be_bytes 2 item.0) (to_be_bytes 2 n),
      length-to_be_bytes 2 item.0,
      length-to_be_bytes 2 n,
    ) in
    let size : length front + 4 + n - (length front + 4) ≡ n = omega arith in
    rw (whole, size, begin) (slice (front ++ header) item.1 behind)

pub get_value-spans_of :
    (front : List ℕ) (items : List Item)
    → map (λ span. get_value span (front ++ wire items)) (spans_of (length front) items)
      ≡ map (λ item. item.1) items
get_value-spans_of front [] = refl
get_value-spans_of front (item ∷ items) =
    let front' = front ++ framed item.0 item.1 [] in
    let here = length front + 4 + length item.1 + padding (length item.1) in
    let whole : front ++ framed item.0 item.1 (wire items) ≡ front' ++ wire items =
      ap (λ rest. front ++ rest) (framed-rest item.0 item.1 (wire items))
      ∙ sym (append_assoc front (framed item.0 item.1 []) (wire items)) in
    let begin : here ≡ length front' =
      omega
        (arith, length-append front (framed item.0 item.1 []), length-framed item.0 item.1 []) in
    let tail =
      ap (λ b. map (λ span. get_value span b) (spans_of here items)) whole
      ∙ ap (λ at. map (λ span. get_value span (front' ++ wire items)) (spans_of at items)) begin
      ∙ get_value-spans_of front' items in
    ap
      (λ value.
        value
        ∷ map (λ span. get_value span (front ++ framed item.0 item.1 (wire items)))
            (spans_of here items))
      (get_value-span_at front item (wire items))
    ∙ ap (◌∷◌ item.1) tail

pub attr_typ-spans_of :
    (position : ℕ) (items : List Item)
    → map (λ span. span.attr_typ) (spans_of position items) ≡ map (λ item. item.0) items
attr_typ-spans_of position [] = refl
attr_typ-spans_of position (item ∷ items) =
    ap (◌∷◌ item.0)
      (attr_typ-spans_of (position + 4 + length item.1 + padding (length item.1)) items)
