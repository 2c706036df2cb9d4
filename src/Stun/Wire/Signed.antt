-- ===== src/Stun/Wire/Signed.antt =====
-- Message integrity of media/stun-types/src/attributes/integrity.rs on whole messages.
use mathlib.Core.List.{append_assoc}
use ezk.Common.{
  ℕ, ◌+◌, ◌-◌, ◌^◌, ◌<◌, ◌≡◌, ◌∙◌, ap, sym, List, ◌∷◌, ◌++◌, some, Bool, true, length, All, arith,
  length-append, take, take-append, ltb, if◌then◌else◌,
}
use ezk.Common.BufMut.{to_be_bytes}
use ezk.Common.Result.{Result, ok, err}
use ezk.Stun.Header
use ezk.Stun.Header.{padding, Class, Method, Error, invalid_data, try_from_int, len, cookie}
use ezk.Stun.Header.Fields.{head_of, set_len_twice, head_fields, type_of, type_of-lt}
use ezk.Stun.Message.{Message, get_value, set_msg_len, with_msg_len}
use ezk.Stun.Attribute.{attribute_with, decode_found}
use ezk.Stun.Attribute.Integrity.{integrity, same_bytes, verify_digest, message_integrity_decode}
use ezk.Stun.Wire.{Item, wire, span_at, length-framed}
use ezk.Stun.Wire.RoundTrip.{message_of, header_of, length-header_of}
use ezk.Stun.Wire.Found.{IsPassed, get_value-behind, find_attribute-spans_of, wire-append}

-- The message with another length in its head.
abbrev pub headed : Class → Method → List ℕ → List Item → ℕ → Message
headed class method id items n = record (message_of class method id items) {
  head = Header.set_len (head_of class method) n;
  buffer = header_of class method n id ++ wire items;
}

set_msg_len-headed :
    (class : Class) (method : Method) (id : List ℕ) (items : List Item) (n m : ℕ)
    → set_msg_len m (headed class method id items n) ≡ headed class method id items m
unfolding set_msg_len to_be_bytes
set_msg_len-headed class method id items n m =
    ap
      (λ head. record (message_of class method id items) {
        head = head;
        buffer = (to_be_bytes 4 head ++ (to_be_bytes 4 cookie ++ id)) ++ wire items;
      })
      (set_len_twice (head_of class method) n m)

len-head :
    (class : Class) (method : Method) (n : ℕ)
    → n < 2 ^ 16
    → len (Header.set_len (head_of class method) n) ≡ n
len-head class method n h = (head_fields (type_of class method) n (type_of-lt class method) h).2

-- The closure sees the length it asked for, and the message comes back as it was.
pub with_msg_len-headed {ℓ} :
    {R : Type ℓ} (f : Message → R) (class : Class) (method : Method) (id : List ℕ)
    (items : List Item) (n m : ℕ)
    → n < 2 ^ 16
    → with_msg_len m f (headed class method id items n)
      ≡ (f (headed class method id items m), headed class method id items n)
unfolding with_msg_len
with_msg_len-headed f class method id items n m h =
    let there = set_msg_len-headed class method id items n m in
    let back = set_msg_len-headed class method id items m n in
    ap (λ msg. (f msg, set_msg_len (len (Header.set_len (head_of class method) n)) msg)) there
    ∙ ap (λ k. (f (headed class method id items m), set_msg_len k (headed class method id items m)))
        (len-head class method n h)
    ∙ ap (λ msg. (f (headed class method id items m), msg)) back

abbrev pub checked : Bool → Result Error (Unit {0})
checked same = if same then ok tt else err (invalid_data "failed to verify message integrity")

below : (a b : ℕ) → a < b → ltb a b ≡ true
below a b h = ground arith

module _ {Key : Type 0} (hmac : Key → List ℕ → List ℕ) where
  verify_digest-headed :
      (key : Key) (class : Class) (method : Method) (id : List ℕ) (front : List Item) (item : Item)
      (rest : List Item) (n : ℕ)
      → length id ≡ 12
      → verify_digest hmac key
          (span_at (20 + length (wire front)) item)
          (headed class method id (front ++ (item ∷ rest)) n)
        ≡ checked (same_bytes (hmac key (header_of class method n id ++ wire front)) item.1)
  unfolding verify_digest
  verify_digest-headed key class method id front item rest n h =
      let header = header_of class method n id in
      let buffer = header ++ wire (front ++ (item ∷ rest)) in
      let span = span_at (20 + length (wire front)) item in
      let twenty = length-header_of class method n id h in
      let before : take (span.begin - 4) buffer ≡ header ++ wire front =
        ap (λ k. take k buffer) (omega (arith, twenty, length-append header (wire front)))
        ∙ ap (take (length (header ++ wire front))) (
            ap (λ bytes. header ++ bytes) (wire-append front (item ∷ rest))
            ∙ sym (append_assoc header (wire front) (wire (item ∷ rest))))
        ∙ take-append (header ++ wire front) (wire (item ∷ rest)) in
      ap (λ bytes. checked (same_bytes (hmac key bytes) (get_value span buffer))) before
      ∙ ap (λ value. checked (same_bytes (hmac key (header ++ wire front)) value))
          (get_value-behind header front item rest twenty)

  message_integrity_decode-headed :
      (key : Key) (class : Class) (method : Method) (id : List ℕ) (front : List Item) (item : Item)
      (rest : List Item)
      → length id ≡ 12
      → length (wire (front ++ (item ∷ rest))) < 2 ^ 16
      → message_integrity_decode hmac key
          (message_of class method id (front ++ (item ∷ rest)))
          (span_at (20 + length (wire front)) item)
        ≡ (
          checked (
              same_bytes
                (hmac key (
                  header_of class method
                    (length (wire front) + 4 + length item.1 + padding (length item.1))
                    id
                  ++ wire front))
                item.1),
          message_of class method id (front ++ (item ∷ rest)),
        )
  unfolding message_integrity_decode
  message_integrity_decode-headed key class method id front item rest hid fits =
      let items = front ++ (item ∷ rest) in
      let msg = message_of class method id items in
      let span = span_at (20 + length (wire front)) item in
      let m = length (wire front) + 4 + length item.1 + padding (length item.1) in
      let end : span.padding_end - 20 ≡ m = omega arith in
      let within : ltb m (2 ^ 16) ≡ true = below m (2 ^ 16) (
        omega (
          arith,
          ap length (wire-append front (item ∷ rest)),
          length-append (wire front) (wire (item ∷ rest)),
          length-framed item.0 item.1 (wire rest),
        )) in
      let decode = λ (k : ℕ).
        if ltb k (2 ^ 16)
        then with_msg_len k (verify_digest hmac key span) msg
        else (err try_from_int, msg) in
      ap decode end
      ∙ ap
          (λ b.
            if b then with_msg_len m (verify_digest hmac key span) msg else (err try_from_int, msg))
          within
      ∙ with_msg_len-headed (verify_digest hmac key span) class method id items
          (length (wire items)) m fits
      ∙ ap (λ r. (r, msg)) (verify_digest-headed key class method id front item rest m hid)

  -- What the search for an integrity attribute of a message that was built comes to, if no integrity
  -- attribute stands in front of it and the attributes take less than 65536 bytes: the value is
  -- compared with the digest, under the key, of the message up to the attribute, with the length
  -- that ends with the attribute; what stands behind the attribute does not count, and the
  -- message is left as it was.
  pub attribute_with-integrity :
      (t size : ℕ) (key : Key) (class : Class) (method : Method) (id : List ℕ) (front : List Item)
      (value : List ℕ) (rest : List Item)
      → length id ≡ 12
      → All (IsPassed t) front
      → length (wire (front ++ ((t, value) ∷ rest))) < 2 ^ 16
      → attribute_with
          (integrity hmac t size)
          key
          (message_of class method id (front ++ ((t, value) ∷ rest)))
        ≡ (
          some (
              checked (
                same_bytes
                  (hmac key (
                    header_of class method
                      (length (wire front) + 4 + length value + padding (length value))
                      id
                    ++ wire front))
                  value)),
          message_of class method id (front ++ ((t, value) ∷ rest)),
        )
  unfolding integrity attribute_with
  attribute_with-integrity t size key class method id front value rest hid passed fits =
      let msg = message_of class method id (front ++ ((t, value) ∷ rest)) in
      ap (decode_found (integrity hmac t size) key msg)
        (find_attribute-spans_of t 20 front value rest passed)
      ∙ ap (λ r. (some r.0, r.1))
          (message_integrity_decode-headed key class method id front (t, value) rest hid fits)
