-- ===== src/Stun/Wire/Found.antt =====
-- Which attribute `attribute_with` of media/stun-types/src/parse.rs finds in a message.
use mathlib.Core.List.{append_assoc}
use ezk.Common.{
  ℕ, ◌+◌, ◌≡◌, ◌≢◌, refl, ◌∙◌, ap, sym, List, [], ◌∷◌, ◌++◌, some, none, false, true, length, All,
  arith, length-append, ◌==◌, ◌||◌, Bool-cases, inl, inr,
}
use ezk.Common.Result.{ok}
use ezk.Stun.Header.{padding, Class, Method}
use ezk.Stun.Message.{
  get_value, find_attribute, message_integrity_type, message_integrity_sha256_type,
  fingerprint_type,
}
use ezk.Stun.Attribute.{Attribute, attribute_with, decode_found}
use ezk.Stun.Attribute.Codes.{Codes, framed}
use ezk.Stun.Wire.{Item, wire, span_at, spans_of, framed-rest, length-framed}
use ezk.Stun.Wire.Parsed.{get_value-span_at}
use ezk.Stun.Wire.RoundTrip.{message_of, header_of, length-header_of, message_id}

-- An item that a search for `wanted` passes, and that does not end the search.
pub record IsPassed (wanted : ℕ) (item : Item) : Type 0 where
  pub other : item.0 ≢ wanted
  pub not_integrity : item.0 ≢ message_integrity_type
  pub not_sha256 : item.0 ≢ message_integrity_sha256_type

not_equal : (a b : ℕ) → a ≢ b → (a == b) ≡ false
not_equal a b h = ground arith

==_refl : (a : ℕ) → (a == a) ≡ true
==_refl a = ground arith

pub find_attribute-spans_of :
    (wanted position : ℕ) (front : List Item) (value : List ℕ) (rest : List Item)
    → All (IsPassed wanted) front
    → find_attribute wanted false (spans_of position (front ++ ((wanted, value) ∷ rest)))
      ≡ some (span_at (position + length (wire front)) (wanted, value))
unfolding find_attribute
find_attribute-spans_of wanted position [] value rest h =
    rw (==_refl wanted) (ap (λ at. some (span_at at (wanted, value))) (omega arith))
find_attribute-spans_of wanted position (item ∷ front) value rest h =
    let passed = h.0 in
    rw
      (
        not_equal item.0 wanted passed.other,
        not_equal item.0 message_integrity_type passed.not_integrity,
        not_equal item.0 message_integrity_sha256_type passed.not_sha256,
      )
      (find_attribute-spans_of wanted (position + 4 + length item.1 + padding (length item.1)) front
          value rest h.1
        ∙ ap (λ at. some (span_at at (wanted, value)))
            (omega (arith, length-framed item.0 item.1 (wire front))))

-- Behind an integrity attribute only integrity attributes and the fingerprint count.
find_attribute_behind :
    (wanted position : ℕ) (items : List Item)
    → wanted ≢ message_integrity_sha256_type
    → wanted ≢ fingerprint_type
    → find_attribute wanted true (spans_of position items) ≡ none
unfolding find_attribute
find_attribute_behind wanted position [] a b = refl
find_attribute_behind wanted position (item ∷ items) a b = ground (
  arith,
  find_attribute_behind wanted (position + 4 + length item.1 + padding (length item.1)) items a b,
)

find_attribute-ignored :
    (wanted position : ℕ) (front : List Item) (integrity : Item) (rest : List Item)
    → All (λ item. item.0 ≢ wanted) front
    → (integrity.0 == message_integrity_type || integrity.0 == message_integrity_sha256_type) ≡ true
    → integrity.0 ≢ wanted
    → wanted ≢ message_integrity_sha256_type
    → wanted ≢ fingerprint_type
    → find_attribute wanted false (spans_of position (front ++ (integrity ∷ rest))) ≡ none
unfolding find_attribute
find_attribute-ignored wanted position [] integrity rest h i o a b =
    rw (not_equal integrity.0 wanted o, i)
      (find_attribute_behind wanted
        (position + 4 + length integrity.1 + padding (length integrity.1)) rest a b)
find_attribute-ignored wanted position (item ∷ front) integrity rest h i o a b =
    let next = position + 4 + length item.1 + padding (length item.1) in
    elim (Bool-cases
      (item.0 == message_integrity_type || item.0 == message_integrity_sha256_type)) [
        | inl e ↦
            rw (not_equal item.0 wanted h.0, e)
              (find_attribute_behind wanted next (front ++ (integrity ∷ rest)) a b)
        | inr e ↦
            rw (not_equal item.0 wanted h.0, e)
              (find_attribute-ignored wanted next front integrity rest h.1 i o a b)
      ]

pub wire-append : (front rest : List Item) → wire (front ++ rest) ≡ wire front ++ wire rest
wire-append [] rest = refl
wire-append (item ∷ front) rest =
    ap (framed item.0 item.1) (wire-append front rest)
    ∙ framed-rest item.0 item.1 (wire front ++ wire rest)
    ∙ sym (append_assoc (framed item.0 item.1 []) (wire front) (wire rest))
    ∙ ap (λ bytes. bytes ++ wire rest) (sym (framed-rest item.0 item.1 (wire front)))

-- The bytes of an item that stands behind others, under any header of twenty bytes.
pub get_value-behind :
    (header : List ℕ) (front : List Item) (item : Item) (rest : List Item)
    → length header ≡ 20
    → get_value (span_at (20 + length (wire front)) item) (header ++ wire (front ++ (item ∷ rest)))
      ≡ item.1
get_value-behind header front item rest h =
    let begin : 20 + length (wire front) ≡ length (header ++ wire front) =
      omega (arith, length-append header (wire front)) in
    let whole : header ++ wire (front ++ (item ∷ rest))
        ≡ (header ++ wire front) ++ wire (item ∷ rest) =
      ap (λ bytes. header ++ bytes) (wire-append front (item ∷ rest))
      ∙ sym (append_assoc header (wire front) (wire (item ∷ rest))) in
    ap (get_value (span_at (20 + length (wire front)) item)) whole
    ∙ ap (λ at. get_value (span_at at item) ((header ++ wire front) ++ wire (item ∷ rest))) begin
    ∙ get_value-span_at (header ++ wire front) item (wire rest)

-- A message that was built holds an attribute behind others of other types, none of which is an
-- integrity attribute: then `attribute_with` finds it, and decodes the value that was encoded.
pub attribute_with-message_of :
    {Ctx A : Type 0} (att : Attribute Ctx A) (ctx : Ctx) (a : A) (value : List ℕ) (class : Class)
    (method : Method) (id : List ℕ) (front rest : List Item)
    → length id ≡ 12
    → Codes att (message_id id) ctx a value
    → All (IsPassed att.attr_type) front
    → (attribute_with att ctx
        (message_of class method id (front ++ ((att.attr_type, value) ∷ rest)))).0
      ≡ some (ok a)
unfolding attribute_with
attribute_with-message_of att ctx a value class method id front rest hid codes h =
    let item = let i : Item = (att.attr_type, value) in i in
    let items = front ++ (item ∷ rest) in
    let msg = message_of class method id items in
    let header = header_of class method (length (wire items)) id in
    let span = span_at (20 + length (wire front)) item in
    let shown =
      get_value-behind header front item rest
        (length-header_of class method (length (wire items)) id hid) in
    ap (λ found. (decode_found att ctx msg found).0)
      (find_attribute-spans_of att.attr_type 20 front value rest h)
    ∙ ap some (codes.read msg span refl shown)

-- In a message that was built, an attribute that stands only behind an integrity attribute is not
-- found, whatever its value is, unless it is MESSAGE-INTEGRITY-SHA256 or FINGERPRINT, or of the type
-- of the integrity attribute; and the message is left as it was.
pub attribute_with_unsigned :
    {Ctx A : Type 0} (att : Attribute Ctx A) (ctx : Ctx) (class : Class) (method : Method)
    (id : List ℕ) (front : List Item) (integrity : Item) (rest : List Item)
    → All (λ item. item.0 ≢ att.attr_type) front
    → (integrity.0 == message_integrity_type || integrity.0 == message_integrity_sha256_type) ≡ true
    → integrity.0 ≢ att.attr_type
    → att.attr_type ≢ message_integrity_sha256_type
    → att.attr_type ≢ fingerprint_type
    → attribute_with att ctx (message_of class method id (front ++ (integrity ∷ rest)))
      ≡ (none, message_of class method id (front ++ (integrity ∷ rest)))
unfolding attribute_with
attribute_with_unsigned att ctx class method id front integrity rest h i o a b =
    ap (decode_found att ctx (message_of class method id (front ++ (integrity ∷ rest))))
      (find_attribute-ignored att.attr_type 20 front integrity rest h i o a b)
