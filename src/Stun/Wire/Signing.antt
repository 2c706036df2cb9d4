-- ===== src/Stun/Wire/Signing.antt =====
-- Messages that are signed by MessageBuilder and checked by Message, of media/stun-types/src.
use mathlib.Core.List.{append-nil, append_assoc}
use ezk.Common.{
  ℕ, ◌+◌, ◌-◌, ◌^◌, ◌<◌, ◌≡◌, refl, ◌∙◌, ap, sym, List, [], ◌∷◌, ◌++◌, Option, some, none, true,
  length, All, All-append, arith, length-append, take, drop, replicate, take-append,
}
use ezk.Common.BufMut.{BufMut, to_be_bytes}
use ezk.Common.Bytes.{ReadBytes, length-to_be_bytes}
use ezk.Common.Result.{ok}
use ezk.Stun.Header
use ezk.Stun.Header.{padding, Class, Method, cookie}
use ezk.Stun.Header.Fields.{head_of, set_len_twice}
use ezk.Stun.Message.{Message, parse}
use ezk.Stun.Builder.{MessageBuilder, new, finish}
use ezk.Stun.Attribute.{attribute_with, add_attr_with, pad, add_measured, u16_try_from}
use ezk.Stun.Attribute.Codes.{framed, put_attribute_header_lem}
use ezk.Stun.Attribute.Integrity.{integrity, same_bytes, message_integrity_encode}
use ezk.Stun.Wire.{Item, IsItem, wire, add_all, add_all-wire, length-framed}
use ezk.Stun.Wire.RoundTrip.{
  IsTransactionId, message_of, header_of, begun, new_lem, finish_added, finish_lem, length-head,
  parse-header_of,
}
use ezk.Stun.Wire.Found.{IsPassed, wire-append}
use ezk.Stun.Wire.Signed.{checked, attribute_with-integrity}

u16_small : (n : ℕ) → n < 2 ^ 16 → u16_try_from n ≡ some n
u16_small n h = ground arith

same_bytes_refl : (bytes : List ℕ) → same_bytes bytes bytes ≡ true
unfolding same_bytes
same_bytes_refl [] = refl
same_bytes_refl (b ∷ bytes) = ground (arith, same_bytes_refl bytes)

module _ {Key : Type 0} (hmac : Key → List ℕ → List ℕ) where
  abbrev pub add_signed : BufMut → ℕ → ℕ → Key → Option MessageBuilder → Option MessageBuilder
  add_signed buf t size key none = none
  add_signed buf t size key (some b) = add_attr_with buf (integrity hmac t size) key tt b

  -- The attributes, and behind them the integrity under the key.
  unfoldable pub sign : BufMut → ℕ → ℕ → Key → Class → Method → List ℕ → List Item → Option (List ℕ)
  sign buf t size key class method id items =
      finish_added (add_signed buf t size key (add_all buf items (new buf class method id)))

  message_integrity_encode_lem :
      (size : ℕ) (key : Key) (b : MessageBuilder) (n : ℕ)
      → length b.buffer ≡ 24 + n
      → n + 4 + size < 2 ^ 16
      → message_integrity_encode hmac size key b ≡ (
          let front = to_be_bytes 4 (Header.set_len b.head (n + 4 + size)) ++ drop 4 b.buffer in
          some (record b {
            head = Header.set_len b.head (n + 4 + size);
            buffer = front ++ hmac key (take (length front - 4) front);
          }))
  unfolding message_integrity_encode
  message_integrity_encode_lem size key b n long fits =
      let value : length b.buffer + size - 20 ≡ n + 4 + size = omega arith in ground (arith, value)

  -- The bytes that are signed: up to the attribute, with the length that ends with it.
  abbrev pub signed_bytes : ℕ → Class → Method → List ℕ → List Item → List ℕ
  signed_bytes size class method id items =
      header_of class method (length (wire items) + 4 + size) id ++ wire items

  module _ (buf : BufMut) (t size : ℕ) (key : Key) (class : Class) (method : Method) (id : List ℕ)
      (items : List Item) (ht : t < 2 ^ 16) (hid : length id ≡ 12)
      (fits : length (wire items) + 4 + size < 2 ^ 16) (aligned : padding size ≡ 0)
      (sized : length (hmac key (signed_bytes size class method id items)) ≡ size) where
    abbrev attribute_header : List ℕ
    attribute_header = to_be_bytes 2 t ++ to_be_bytes 2 size

    abbrev digest : List ℕ
    digest = hmac key (signed_bytes size class method id items)

    new_front :
        to_be_bytes 4 (Header.set_len (head_of class method) (length (wire items) + 4 + size))
          ++ drop 4 ((begun class method id (wire items)).buffer ++ attribute_header)
        ≡ signed_bytes size class method id items ++ attribute_header
    unfolding to_be_bytes
    new_front = refl

    length-signed_bytes :
        length (signed_bytes size class method id items) ≡ 20 + length (wire items)
    length-signed_bytes =
        length-head (Header.set_len (head_of class method) (length (wire items) + 4 + size)) id
          (wire items) hid

    abbrev signed_builder : MessageBuilder
    signed_builder = record (begun class method id (wire items)) {
      head = Header.set_len (head_of class method) (length (wire items) + 4 + size);
      buffer = (signed_bytes size class method id items ++ attribute_header) ++ digest;
    }

    add_signed_lem :
        add_signed buf t size key (some (begun class method id (wire items))) ≡ some signed_builder
    unfolding add_attr_with integrity
    add_signed_lem =
        let b = begun class method id (wire items) in
        let n = length (wire items) in
        let att = integrity hmac t size in
        let signed = signed_bytes size class method id items in
        let b1 = let r : MessageBuilder = record b { buffer = b.buffer ++ attribute_header } in r in
        let H = Header.set_len (head_of class method) (n + 4 + size) in
        let long : length b1.buffer ≡ 24 + n = omega (
          arith,
          length-append b.buffer attribute_header,
          length-append (to_be_bytes 2 t) (to_be_bytes 2 size),
          length-to_be_bytes 2 t,
          length-to_be_bytes 2 size,
          length-head (head_of class method) id (wire items) hid,
        ) in
        let without : length (signed ++ attribute_header) - 4 ≡ length signed = omega (
          arith,
          length-append signed attribute_header,
          length-append (to_be_bytes 2 t) (to_be_bytes 2 size),
          length-to_be_bytes 2 t,
          length-to_be_bytes 2 size,
        ) in
        let hashed : take (length (signed ++ attribute_header) - 4) (signed ++ attribute_header)
            ≡ signed =
          ap (λ k. take k (signed ++ attribute_header)) without
          ∙ take-append signed attribute_header in
        ap (add_measured buf att key tt b) (u16_small size (omega arith))
        ∙ ap (λ b'. pad size (message_integrity_encode hmac size key b'))
            (put_attribute_header_lem buf b t size ht (omega arith) refl)
        ∙ ap (pad size) (message_integrity_encode_lem size key b1 n long fits)
        ∙ ap
            (λ front. pad size (
              some (record b {
                head = H;
                buffer = front ++ hmac key (take (length front - 4) front);
              })))
            new_front
        ∙ ap
            (λ bytes. pad size (
              some
                (record b { head = H; buffer = (signed ++ attribute_header) ++ hmac key bytes })))
            hashed
        ∙ ap
            (λ k. some (record b {
              head = H;
              buffer = ((signed ++ attribute_header) ++ digest) ++ replicate k 0;
            }))
            aligned
        ∙ ap (λ bytes. some (record b { head = H; buffer = bytes }))
            (append-nil ((signed ++ attribute_header) ++ digest))

    -- The item that the attribute is on the wire.
    framed-digest : framed t digest [] ≡ attribute_header ++ digest
    framed-digest =
        ap
          (λ k. to_be_bytes 2 t ++ (to_be_bytes 2 k ++ (digest ++ (replicate (padding k) 0 ++ []))))
          sized
        ∙ ap (λ k. to_be_bytes 2 t ++ (to_be_bytes 2 size ++ (digest ++ (replicate k 0 ++ []))))
            aligned
        ∙ simp (append_assoc, append-nil)

    length-signed : length (wire (items ++ ((t, digest) ∷ []))) ≡ length (wire items) + 4 + size
    length-signed = omega (
      arith,
      ap length (wire-append items ((t, digest) ∷ [])),
      length-append (wire items) (framed t digest []),
      length-framed t digest [],
      sized,
      ap padding sized,
      aligned,
    )

    same_head :
        to_be_bytes 4 (Header.set_len (head_of class method) (length (wire items) + 4 + size))
          ++ drop 4 signed_builder.buffer
        ≡ signed_builder.buffer
    unfolding to_be_bytes
    same_head = refl

    signed_builder-message_of :
        signed_builder.buffer ≡ (message_of class method id (items ++ ((t, digest) ∷ []))).buffer
    signed_builder-message_of =
        let n = length (wire items) + 4 + size in
        append_assoc (signed_bytes size class method id items) attribute_header digest
        ∙ append_assoc (header_of class method n id) (wire items) (attribute_header ++ digest)
        ∙ ap (λ tail. header_of class method n id ++ (wire items ++ tail)) (sym framed-digest)
        ∙ ap (λ tail. header_of class method n id ++ tail)
            (sym (wire-append items ((t, digest) ∷ [])))
        ∙ ap (λ k. header_of class method k id ++ wire (items ++ ((t, digest) ∷ [])))
            (sym length-signed)

    finish_signed :
        finish signed_builder
        ≡ some (message_of class method id (items ++ ((t, digest) ∷ []))).buffer
    finish_signed =
        let n = length (wire items) + 4 + size in
        let h = head_of class method in
        let long : length signed_builder.buffer ≡ 20 + n = omega (
          arith,
          length-append (signed_bytes size class method id items ++ attribute_header) digest,
          length-append (signed_bytes size class method id items) attribute_header,
          length-append (to_be_bytes 2 t) (to_be_bytes 2 size),
          length-to_be_bytes 2 t,
          length-to_be_bytes 2 size,
          length-signed_bytes,
          sized,
        ) in
        finish_lem signed_builder n long fits
        ∙ ap (λ head. some (to_be_bytes 4 head ++ drop 4 signed_builder.buffer))
            (set_len_twice h n n)
        ∙ ap some (same_head ∙ signed_builder-message_of)

  -- A message that is built of attributes and signed behind them, with a keyed digest whose length
  -- is a multiple of four as those of SHA-1 and SHA-256 are, is built without a panic; it is
  -- parsed, and the check of its integrity under the same key succeeds. The attributes in front are
  -- no integrity attributes, and all together take less than 65536 bytes.
  pub attribute_with-sign :
      (rd : ReadBytes) (buf : BufMut) (t size : ℕ) (key : Key) (class : Class) (method : Method)
      (id : List ℕ) (items : List Item)
      → t < 2 ^ 16
      → IsTransactionId id
      → All IsItem items
      → All (IsPassed t) items
      → length (wire items) + 4 + size < 2 ^ 16
      → padding size ≡ 0
      → length (hmac key (signed_bytes size class method id items)) ≡ size
      → (bytes : List ℕ) × (msg : Message) × (sign buf t size key class method id items
          ≡ some bytes)
        × (parse rd bytes ≡ ok msg)
        × ((attribute_with (integrity hmac t size) key msg).0 ≡ some (ok tt))
  unfolding sign
  attribute_with-sign rd buf t size key class method id items ht hid h passed fits aligned sized =
      let digest = hmac key (signed_bytes size class method id items) in
      let items' = items ++ ((t, digest) ∷ []) in
      let short =
        length-signed buf t size key class method id items ht hid.long fits aligned sized in
      let signed_in =
        header_of class method (length (wire items) + 4 + length digest + padding (length digest))
          id
        ++ wire items in
      let same_size : length (wire items) + 4 + length digest + padding (length digest)
          ≡ length (wire items) + 4 + size =
        omega (arith, sized, ap padding sized) in
      (
        (message_of class method id items').buffer,
        message_of class method id items',
        ap (λ b. finish_added (add_signed buf t size key (add_all buf items b)))
              (new_lem buf class method id)
            ∙ ap (λ o. finish_added (add_signed buf t size key o))
                (add_all-wire buf items (begun class method id []) h refl)
            ∙ ap
                (λ front. finish_added (
                  add_signed buf t size key
                    (some (record (begun class method id []) { buffer = front ++ wire items }))))
                (append-nil (to_be_bytes 4 (head_of class method) ++ (to_be_bytes 4 cookie ++ id)))
            ∙ ap finish_added
                (add_signed_lem buf t size key class method id items ht hid.long fits aligned sized)
            ∙ finish_signed buf t size key class method id items ht hid.long fits aligned sized,
        parse-header_of rd class method id items' hid
            (All-append IsItem items ((t, digest) ∷ []) h
              (record { typed = ht; short = omega arith }, tt))
            (omega arith),
        ap (λ r. r.0)
              (attribute_with-integrity hmac t size key class method id items digest [] hid.long
                passed (omega arith))
            ∙ ap
                (λ k. some (
                  checked
                    (same_bytes (hmac key (header_of class method k id ++ wire items)) digest)))
                same_size
            ∙ ap (λ b. some (checked b)) (same_bytes_refl digest),
      )
