-- ===== src/Stun/Message.antt =====
-- media/stun-types/src/parse.rs: a received message. The reading methods of the crate `byteorder`
-- are the parameter `rd`.
use ezk.Common.{
  ℕ, zero, suc, ◌+◌, ◌-◌, List, [], ◌∷◌, ◌++◌, Option, none, some, Bool, true, false, not, ◌&&◌,
  ◌||◌, length, take, drop, ltb, ◌==◌, if◌then◌else◌,
}
use ezk.Common.BufMut.{to_be_bytes}
use ezk.Common.Bytes.{ReadBytes}
use ezk.Common.Result.{Result, ok, err, ok_or, ◌>>=◌}
use ezk.Stun.Header.{
  Error, invalid_data, incomplete, padding, cookie, MessageHead, z, typ, len, set_len, Class,
  Method, class_try_from, method_try_from,
}

pub record AttrSpan : Type 0 where
  pub begin : ℕ
  pub end : ℕ
  pub padding_end : ℕ
  pub attr_typ : ℕ

-- `get_value`: the bytes of `buf[begin..end]`, which the spans of a parsed message have.
unfoldable pub get_value : AttrSpan → List ℕ → List ℕ
get_value span buf = take (span.end - span.begin) (drop span.begin buf)

pub record Message : Type 0 where
  pub buffer : List ℕ
  pub head : MessageHead
  pub id : ℕ
  pub class : Class
  pub method : Method
  pub transaction_id : List ℕ
  pub attributes : List AttrSpan

abbrev pub prepend : AttrSpan → Result Error (List AttrSpan) → Result Error (List AttrSpan)
prepend span (ok spans) = ok (span ∷ spans)
prepend span (err e) = err e

module _ (rd : ReadBytes) where
  abbrev pub read_word : ℕ → List ℕ → Result Error (ℕ × List ℕ)
  read_word n bytes = ok_or incomplete (rd.read_word n bytes)

  -- The loop over the attributes: the cursor is at `position` of `total` bytes, and `rest` is what
  -- is behind it. A round takes four bytes at least, so the length of `rest` is enough fuel.
  unfoldable pub parse_attributes : ℕ → ℕ → ℕ → List ℕ → Result Error (List AttrSpan)
  unfolding padding
  parse_attributes zero total position rest = ok []
  parse_attributes (suc fuel) total position [] = ok []
  parse_attributes (suc fuel) total position (b ∷ bs) = do
    (t, after_typ) ← read_word 2 (b ∷ bs)
    (attr_len, value) ← read_word 2 after_typ
    let begin = position + 4
    let end = begin + attr_len
    let padding_end = end + padding attr_len
    let more = parse_attributes fuel total padding_end (drop (attr_len + padding attr_len) value)
    if ltb total padding_end
        then err (invalid_data "Invalid attribute length in STUN message")
        else prepend (record { begin = begin; end = end; padding_end = padding_end; attr_typ = t })
            more

  abbrev not_stun : Error
  not_stun = invalid_data "not a stun message"

  abbrev check : Bool → Error → Result Error (Unit {0})
  check true e = ok tt
  check false e = err e

  -- The cookie and the transaction id are the first four and the last twelve bytes of `id`.
  unfoldable pub parse : List ℕ → Result Error Message
  parse buffer = do
    (head, after_head) ← read_word 4 buffer
    _ ← check (z head == 0) not_stun
    (id, rest) ← read_word 16 after_head
    (read_cookie, transaction_id) ← read_word 4 (to_be_bytes 16 id)
    _ ← check (read_cookie == cookie) not_stun
    class ← class_try_from (typ head)
    method ← method_try_from (typ head)
    attributes ← parse_attributes (length rest) (length buffer) 20 rest
    ok (record {
      buffer = buffer;
      head = head;
      id = id;
      class = class;
      method = method;
      transaction_id = take 12 transaction_id;
      attributes = attributes;
    })

-- The types of MESSAGE-INTEGRITY, MESSAGE-INTEGRITY-SHA256 and FINGERPRINT.
abbrev pub message_integrity_type : ℕ
message_integrity_type = 0x0008

abbrev pub message_integrity_sha256_type : ℕ
message_integrity_sha256_type = 0x001C

abbrev pub fingerprint_type : ℕ
fingerprint_type = 0x8028

-- The loop of `attribute_with`: the span that is decoded.
unfoldable pub find_attribute : ℕ → Bool → List AttrSpan → Option AttrSpan
find_attribute wanted after_integrity [] = none
find_attribute wanted after_integrity (span ∷ spans) =
    let more =
      find_attribute wanted
        (after_integrity
          || (span.attr_typ == message_integrity_type
              || span.attr_typ == message_integrity_sha256_type))
        spans in
    if after_integrity
      && not (span.attr_typ == message_integrity_sha256_type || span.attr_typ == fingerprint_type)
    then none
    else if span.attr_typ == wanted
    then some span
    else more

-- The four bytes of the head are written to the front of the buffer.
unfoldable pub set_msg_len : ℕ → Message → Message
unfolding set_len to_be_bytes
set_msg_len n msg = record msg {
  head = set_len msg.head n;
  buffer = to_be_bytes 4 (set_len msg.head n) ++ drop 4 msg.buffer;
}

-- The message after `f`, and what `f` answers.
unfoldable pub with_msg_len {ℓ} : {R : Type ℓ} → ℕ → (Message → R) → Message → R × Message
with_msg_len n f msg =
    let changed = set_msg_len n msg in (f changed, set_msg_len (len msg.head) changed)
