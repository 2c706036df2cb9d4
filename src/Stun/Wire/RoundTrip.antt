-- ===== src/Stun/Wire/RoundTrip.antt =====
-- What MessageBuilder of media/stun-types/src/builder.rs writes, Message::parse of parse.rs reads.
use mathlib.Core.List.{append-nil, append_assoc}
use ezk.Common.{
  ℕ, ◌+◌, ◌-◌, ◌^◌, ◌<◌, ◌≡◌, refl, ◌∙◌, ap, sym, List, [], ◌∷◌, ◌++◌, Option, some, none, false,
  length, map, drop, take, All, arith, length-append, All-append,
}
use ezk.Common.BufMut.{BufMut, to_be_bytes}
use ezk.Common.Bytes.{
  ReadBytes, IsByte, from_be_bytes, from_be_bytes-lt, to_be_bytes-from_be_bytes, length-to_be_bytes,
}
use ezk.Common.Result.{ok}
use ezk.Stun.Header
use ezk.Stun.Header.{
  Class, Method, cookie, set_typ, z, typ, class_try_from, method_try_from, set_class_bits,
  set_method_bits,
}
use ezk.Stun.Header.Fields.{
  head_of, head_of-lt, type_of, type_of-lt, head_fields, class_try_from-type_of,
  method_try_from-type_of,
}
use ezk.Stun.Message.{AttrSpan, Message, get_value, parse, parse_attributes}
use ezk.Stun.Builder.{MessageBuilder, new, finish}
use ezk.Stun.Wire.{Item, IsItem, wire, add_all, add_all-wire, spans_of}
use ezk.Stun.Wire.Parsed.{parse_attributes-wire, get_value-spans_of, attr_typ-spans_of}

pub record IsTransactionId (id : List ℕ) : Type 0 where
  pub long : length id ≡ 12
  pub bytes : All IsByte id

abbrev pub finish_added : Option MessageBuilder → Option (List ℕ)
finish_added none = none
finish_added (some b) = finish b

-- The message with the attributes `items`, if it is not too long.
unfoldable pub build : BufMut → Class → Method → List ℕ → List Item → Option (List ℕ)
build buf class method id items = finish_added (add_all buf items (new buf class method id))

-- The first twenty bytes: the length `n`, the cookie and the transaction id.
abbrev pub header_of : Class → Method → ℕ → List ℕ → List ℕ
header_of class method n id =
    to_be_bytes 4 (Header.set_len (head_of class method) n) ++ (to_be_bytes 4 cookie ++ id)

abbrev pub begun : Class → Method → List ℕ → List ℕ → MessageBuilder
begun class method id rest = record {
  head = head_of class method;
  transaction_id = id;
  padding_in_value_len = false;
  buffer = (to_be_bytes 4 (head_of class method) ++ (to_be_bytes 4 cookie ++ id)) ++ rest;
}

pub new_lem :
    (buf : BufMut) (class : Class) (method : Method) (id : List ℕ)
    → new buf class method id ≡ begun class method id []
unfolding new
new_lem buf class method id =
    let head = head_of class method in
    ap
      (λ bytes. record {
        head = head;
        transaction_id = id;
        padding_in_value_len = false;
        buffer = bytes;
      })
      (ap (λ front. buf.put_slice (buf.put_word 4 front cookie) id)
          (buf.put_word-append 4 [] head (head_of-lt class method))
        ∙ ap (λ front. buf.put_slice front id)
            (buf.put_word-append 4 (to_be_bytes 4 head) cookie (omega arith))
        ∙ buf.put_slice-append (to_be_bytes 4 head ++ to_be_bytes 4 cookie) id
        ∙ append_assoc (to_be_bytes 4 head) (to_be_bytes 4 cookie) id
        ∙ sym (append-nil (to_be_bytes 4 head ++ (to_be_bytes 4 cookie ++ id))))

pub length-head :
    (head : ℕ) (id rest : List ℕ)
    → length id ≡ 12
    → length ((to_be_bytes 4 head ++ (to_be_bytes 4 cookie ++ id)) ++ rest) ≡ 20 + length rest
length-head head id rest h = omega (
  arith,
  length-append (to_be_bytes 4 head ++ (to_be_bytes 4 cookie ++ id)) rest,
  length-append (to_be_bytes 4 head) (to_be_bytes 4 cookie ++ id),
  length-append (to_be_bytes 4 cookie) id,
  length-to_be_bytes 4 head,
  length-to_be_bytes 4 cookie,
)

pub finish_lem :
    (b : MessageBuilder) (n : ℕ)
    → length b.buffer ≡ 20 + n
    → n < 2 ^ 16
    → finish b ≡ some (to_be_bytes 4 (Header.set_len b.head n) ++ drop 4 b.buffer)
unfolding finish
finish_lem b n size fits =
    let value : length b.buffer - 20 ≡ n = omega arith in ground (arith, value)

pub finish-begun :
    (class : Class) (method : Method) (id rest : List ℕ)
    → length id ≡ 12
    → length rest < 2 ^ 16
    → finish (begun class method id rest) ≡ some (header_of class method (length rest) id ++ rest)
unfolding finish to_be_bytes
finish-begun class method id rest h fits =
    finish_lem (begun class method id rest) (length rest)
      (length-head (head_of class method) id rest h) fits

build_lem :
    (buf : BufMut) (class : Class) (method : Method) (id : List ℕ) (items : List Item)
    → IsTransactionId id
    → All IsItem items
    → length (wire items) < 2 ^ 16
    → build buf class method id items
      ≡ some (header_of class method (length (wire items)) id ++ wire items)
unfolding build
build_lem buf class method id items hid h fits =
    let empty = to_be_bytes 4 (head_of class method) ++ (to_be_bytes 4 cookie ++ id) in
    ap (λ b. finish_added (add_all buf items b)) (new_lem buf class method id)
    ∙ ap finish_added (add_all-wire buf items (begun class method id []) h refl)
    ∙ ap (λ front. finish (record (begun class method id []) { buffer = front ++ wire items }))
        (append-nil empty)
    ∙ finish-begun class method id (wire items) hid.long fits

cookie-bytes : All IsByte (to_be_bytes 4 cookie)
unfolding to_be_bytes
cookie-bytes = omega arith

parse_steps :
    (rd : ReadBytes) (buffer : List ℕ) (head : ℕ) (after_head : List ℕ) (id : ℕ) (rest : List ℕ)
    (transaction_id : List ℕ) (class : Class) (method : Method) (attributes : List AttrSpan)
    → rd.read_word 4 buffer ≡ some (head, after_head)
    → z head ≡ 0
    → rd.read_word 16 after_head ≡ some (id, rest)
    → rd.read_word 4 (to_be_bytes 16 id) ≡ some (cookie, transaction_id)
    → class_try_from (typ head) ≡ ok class
    → method_try_from (typ head) ≡ ok method
    → parse_attributes rd (length rest) (length buffer) 20 rest ≡ ok attributes
    → parse rd buffer
      ≡ ok (record {
        buffer = buffer;
        head = head;
        id = id;
        class = class;
        method = method;
        transaction_id = take 12 transaction_id;
        attributes = attributes;
      })
unfolding parse
parse_steps rd buffer head after_head id rest transaction_id class method attributes a b c d e f g =
    rw a (rw b (rw c (rw d (rw e (rw f (rw g refl))))))

take_whole : (xs : List ℕ) → take (length xs) xs ≡ xs
take_whole [] = refl
take_whole (x ∷ xs) = ap (◌∷◌ x) (take_whole xs)

abbrev pub message_id : List ℕ → ℕ
message_id id = from_be_bytes (to_be_bytes 4 cookie ++ id)

pub message_id-lt : (id : List ℕ) → IsTransactionId id → message_id id < 2 ^ 128
message_id-lt id h =
    let front = to_be_bytes 4 cookie ++ id in
    let sixteen : length front ≡ 16 =
      omega (arith, length-append (to_be_bytes 4 cookie) id, length-to_be_bytes 4 cookie) in
    let below : from_be_bytes front < 256 ^ length front =
      from_be_bytes-lt front (All-append IsByte (to_be_bytes 4 cookie) id cookie-bytes h.bytes) in
    rw sixteen at below

abbrev pub message_of : Class → Method → List ℕ → List Item → Message
message_of class method id items = record {
  buffer = header_of class method (length (wire items)) id ++ wire items;
  head = Header.set_len (head_of class method) (length (wire items));
  id = from_be_bytes (to_be_bytes 4 cookie ++ id);
  class = class;
  method = method;
  transaction_id = id;
  attributes = spans_of 20 items;
}

pub parse-header_of :
    (rd : ReadBytes) (class : Class) (method : Method) (id : List ℕ) (items : List Item)
    → IsTransactionId id
    → All IsItem items
    → length (wire items) < 2 ^ 16
    → parse rd (header_of class method (length (wire items)) id ++ wire items)
      ≡ ok (message_of class method id items)
parse-header_of rd class method id items hid h fits =
    let n = length (wire items) in
    let head = Header.set_len (head_of class method) n in
    let fields = head_fields (type_of class method) n (type_of-lt class method) fits in
    let front = to_be_bytes 4 cookie ++ id in
    let sixteen : length front ≡ 16 =
      omega (arith, length-append (to_be_bytes 4 cookie) id, length-to_be_bytes 4 cookie) in
    let all_bytes = All-append IsByte (to_be_bytes 4 cookie) id cookie-bytes hid.bytes in
    let same : to_be_bytes 16 (from_be_bytes front) ≡ front =
      ap (λ k. to_be_bytes k (from_be_bytes front)) (sym sixteen)
      ∙ to_be_bytes-from_be_bytes front all_bytes in
    let fit : from_be_bytes front < 256 ^ 16 = message_id-lt id hid in
    let whole = header_of class method n id ++ wire items in
    let total : length whole ≡ 20 + n = length-head head id (wire items) hid.long in
    parse_steps rd whole head (front ++ wire items) (from_be_bytes front) (wire items) id class
      method (spans_of 20 items)
      (ap (rd.read_word 4) (append_assoc (to_be_bytes 4 head) front (wire items))
        ∙ rd.read_word-be 4 head (front ++ wire items) fields.3)
      fields.0
      (ap (λ b. rd.read_word 16 (b ++ wire items)) (sym same)
        ∙ rd.read_word-be 16 (from_be_bytes front) (wire items) fit)
      (ap (rd.read_word 4) same ∙ rd.read_word-be 4 cookie id (omega arith))
      (ap class_try_from fields.1 ∙ class_try_from-type_of class method)
      (ap method_try_from fields.1 ∙ method_try_from-type_of class method)
      (parse_attributes-wire rd n (length whole) 20 items h (sym total) (omega arith))
    ∙ ap
        (λ read.
          let msg : Message = record {
            buffer = whole;
            head = head;
            id = from_be_bytes front;
            class = class;
            method = method;
            transaction_id = read;
            attributes = spans_of 20 items;
          } in
          ok msg)
        (ap (λ k. take k id) (sym hid.long) ∙ take_whole id)

-- What a message says, by its accessors.
pub record Says (msg : Message) (class : Class) (method : Method) (id : List ℕ) (items : List Item)
    : Type 0 where
  pub class_read : msg.class ≡ class
  pub method_read : msg.method ≡ method
  pub id_read : msg.transaction_id ≡ id
  pub types_read : map (λ span. span.attr_typ) msg.attributes ≡ map (λ item. item.0) items
  pub values_read :
      map (λ span. get_value span msg.buffer) msg.attributes ≡ map (λ item. item.1) items

pub length-header_of :
    (class : Class) (method : Method) (n : ℕ) (id : List ℕ)
    → length id ≡ 12
    → length (header_of class method n id) ≡ 20
length-header_of class method n id h = omega (
  arith,
  length-append (to_be_bytes 4 (Header.set_len (head_of class method) n))
      (to_be_bytes 4 cookie ++ id),
  length-append (to_be_bytes 4 cookie) id,
  length-to_be_bytes 4 (Header.set_len (head_of class method) n),
  length-to_be_bytes 4 cookie,
)

message_of-Says :
    (class : Class) (method : Method) (id : List ℕ) (items : List Item)
    → length id ≡ 12
    → Says (message_of class method id items) class method id items
message_of-Says class method id items h =
    let header = header_of class method (length (wire items)) id in
    record {
      class_read = refl;
      method_read = refl;
      id_read = refl;
      types_read = attr_typ-spans_of 20 items;
      values_read =
          ap (λ at. map (λ span. get_value span (header ++ wire items)) (spans_of at items))
            (sym (length-header_of class method (length (wire items)) id h))
          ∙ get_value-spans_of header items;
    }

-- A message that is built of attributes, each with a type and a length of 16 bits and all
-- together below 65536 bytes, under a transaction id of twelve bytes, is built without a panic,
-- and parsing it succeeds: the class, the method, the transaction id, and the types and values of
-- the attributes in their order are those that were written.
pub parse-build :
    (rd : ReadBytes) (buf : BufMut) (class : Class) (method : Method) (id : List ℕ)
    (items : List Item)
    → IsTransactionId id
    → All IsItem items
    → length (wire items) < 2 ^ 16
    → (bytes : List ℕ) × (msg : Message) × (build buf class method id items ≡ some bytes)
      × (parse rd bytes ≡ ok msg)
      × Says msg class method id items
parse-build rd buf class method id items hid h fits = (
  header_of class method (length (wire items)) id ++ wire items,
  message_of class method id items,
  build_lem buf class method id items hid h fits,
  parse-header_of rd class method id items hid h fits,
  message_of-Says class method id items hid.long,
)
