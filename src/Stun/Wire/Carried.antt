-- ===== src/Stun/Wire/Carried.antt =====
-- An address under the masks of media/stun-types/src/attributes/addr.rs in the message that carries
-- it.
use mathlib.Core.List.{append_assoc}
use ezk.Common.{
  ℕ, ◌^◌, ◌<◌, ◌≡◌, ◌∙◌, refl, ap, sym, List, [], ◌∷◌, ◌++◌, Option, none, some, length, All,
  All-append, arith,
}
use ezk.Common.BufMut.{BufMut, to_be_bytes}
use ezk.Common.Bytes.{ReadBytes}
use ezk.Common.Result.{ok}
use ezk.Ice.Types.{SocketAddr, IpAddr}
use ezk.Stun.Header.{Class, Method, cookie}
use ezk.Stun.Header.Fields.{head_of}
use ezk.Stun.Message.{Message, parse}
use ezk.Stun.Builder
use ezk.Stun.Builder.{MessageBuilder, new}
use ezk.Stun.Attribute.{attribute_with, add_attr_with}
use ezk.Stun.Attribute.Addr.{masks_of, addr_len, xor_address}
use ezk.Stun.Attribute.Addr.RoundTrip.{IsAddr, addr_bytes, length-addr_bytes, xor_address-Codes}
use ezk.Stun.Attribute.Codes.{framed, add_attr_with-framed}
use ezk.Stun.Wire.{Item, IsItem, wire, add_all, add_all-wire, framed-rest}
use ezk.Stun.Wire.RoundTrip.{
  IsTransactionId, message_id, message_id-lt, message_of, begun, new_lem, finish_added,
  finish-begun, parse-header_of,
}
use ezk.Stun.Wire.Found.{IsPassed, wire-append, attribute_with-message_of}

abbrev pub add_carried :
    ReadBytes → BufMut → ℕ → SocketAddr → Option MessageBuilder → Option MessageBuilder
add_carried rd buf t addr none = none
add_carried rd buf t addr (some b) = add_attr_with buf (xor_address rd buf t) tt addr b

abbrev pub add_rest : BufMut → List Item → Option MessageBuilder → Option MessageBuilder
add_rest buf rest none = none
add_rest buf rest (some b) = add_all buf rest b

-- The attributes in front, the address, and the attributes behind it.
unfoldable pub carry :
    ReadBytes
    → BufMut
    → ℕ
    → SocketAddr
    → Class
    → Method
    → List ℕ
    → List Item
    → List Item
    → Option (List ℕ)
carry rd buf t addr class method id front rest =
    finish_added
      (add_rest buf rest (add_carried rd buf t addr (add_all buf front (new buf class method id))))

addr_len-lt : (ip : IpAddr) → addr_len ip < 2 ^ 16
addr_len-lt (IpAddr.v4 ip) = omega arith
addr_len-lt (IpAddr.v6 ip) = omega arith

module _ (rd : ReadBytes) (buf : BufMut) (t : ℕ) (addr : SocketAddr) (class : Class)
    (method : Method) (id : List ℕ) (front rest : List Item) (ht : t < 2 ^ 16)
    (hid : IsTransactionId id) (h : IsAddr addr) where
  abbrev value : List ℕ
  value = addr_bytes (masks_of (message_id id)) addr

  abbrev carried : List Item
  carried = front ++ ((t, value) ∷ rest)

  begun-append :
      (xs ys : List ℕ)
      → (let b : MessageBuilder = record (begun class method id xs) {
        buffer = (begun class method id xs).buffer ++ ys;
      } in
          b)
        ≡ begun class method id (xs ++ ys)
  begun-append xs ys =
      ap
        (λ bytes.
          let b : MessageBuilder = record (begun class method id xs) { buffer = bytes } in b)
        (append_assoc (to_be_bytes 4 (head_of class method) ++ (to_be_bytes 4 cookie ++ id)) xs ys)

  short_value : length value < 2 ^ 16
  short_value =
      omega (arith, length-addr_bytes (masks_of (message_id id)) addr, addr_len-lt addr.ip)

  wire-carried : wire front ++ (framed t value [] ++ wire rest) ≡ wire carried
  wire-carried =
      ap (λ tail. wire front ++ tail) (sym (framed-rest t value (wire rest)))
      ∙ sym (wire-append front ((t, value) ∷ rest))

  carry_lem :
      All IsItem front
      → All IsItem rest
      → length (wire carried) < 2 ^ 16
      → carry rd buf t addr class method id front rest
        ≡ some (message_of class method id carried).buffer
  unfolding carry xor_address Builder.id
  carry_lem hf hr fits =
      let add : Option MessageBuilder → Option (List ℕ) = λ o. finish_added (add_rest buf rest o) in
      let b1 = begun class method id (wire front) in
      ap (λ b. add (add_carried rd buf t addr (add_all buf front b))) (new_lem buf class method id)
      ∙ ap (λ o. add (add_carried rd buf t addr o))
          (add_all-wire buf front (begun class method id []) hf refl)
      ∙ ap (λ b. add (add_carried rd buf t addr (some b))) (begun-append [] (wire front))
      ∙ ap add (
          add_attr_with-framed buf (xor_address rd buf t) (message_id id) tt addr value b1
            (xor_address-Codes rd buf t (message_id id) addr (message_id-lt id hid) h) refl refl ht
            short_value)
      ∙ ap (λ b. add (some b)) (begun-append (wire front) (framed t value []))
      ∙ ap finish_added
          (add_all-wire buf rest (begun class method id (wire front ++ framed t value [])) hr refl)
      ∙ ap (λ b. finish_added (some b)) (begun-append (wire front ++ framed t value []) (wire rest))
      ∙ ap (λ bytes. finish_added (some (begun class method id bytes)))
          (append_assoc (wire front) (framed t value []) (wire rest) ∙ wire-carried)
      ∙ finish-begun class method id (wire carried) hid.long fits

-- An address that the builder writes under XOR-MAPPED-ADDRESS or another XOR type, with other
-- attributes in front and behind, is written without a panic; the message is parsed, and the address
-- is read back from it, for IPv4 and IPv6 alike. The attributes in front are of other types and no
-- integrity attributes, and all together take less than 65536 bytes.
pub attribute_with-xor_address :
    (rd : ReadBytes) (buf : BufMut) (t : ℕ) (addr : SocketAddr) (class : Class) (method : Method)
    (id : List ℕ) (front rest : List Item)
    → t < 2 ^ 16
    → IsTransactionId id
    → IsAddr addr
    → All IsItem front
    → All IsItem rest
    → All (IsPassed t) front
    → length (wire (front ++ ((t, addr_bytes (masks_of (message_id id)) addr) ∷ rest))) < 2 ^ 16
    → (bytes : List ℕ) × (msg : Message) × (carry rd buf t addr class method id front rest
        ≡ some bytes)
      × (parse rd bytes ≡ ok msg)
      × ((attribute_with (xor_address rd buf t) tt msg).0 ≡ some (ok addr))
unfolding xor_address
attribute_with-xor_address rd buf t addr class method id front rest ht hid h hf hr passed fits =
    let value = addr_bytes (masks_of (message_id id)) addr in
    let items = front ++ ((t, value) ∷ rest) in
    (
      (message_of class method id items).buffer,
      message_of class method id items,
      carry_lem rd buf t addr class method id front rest ht hid h hf hr fits,
      parse-header_of rd class method id items hid
          (All-append IsItem front ((t, value) ∷ rest) hf (
            record {
              typed = ht;
              short = short_value rd buf t addr class method id front rest ht hid h;
            },
            hr,
          ))
          fits,
      attribute_with-message_of (xor_address rd buf t) tt addr value class method id front rest
          hid.long (xor_address-Codes rd buf t (message_id id) addr (message_id-lt id hid) h)
          passed,
    )
