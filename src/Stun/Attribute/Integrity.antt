-- ===== src/Stun/Attribute/Integrity.antt =====
-- media/stun-types/src/attributes/integrity.rs. The HMAC of the crates hmac, sha1 and sha2 is the
-- parameter `hmac`: the digest of bytes under a key.
use ezk.Common.{
  ℕ, ◌+◌, ◌-◌, ◌^◌, List, [], ◌∷◌, ◌++◌, Option, none, some, Bool, true, false, ◌&&◌, length, take,
  leb, ltb, ◌==◌, if◌then◌else◌,
}
use ezk.Common.Result.{Result, ok, err}
use ezk.Stun.Header.{Error, invalid_data, try_from_int, stun_header_length}
use ezk.Stun.Message.{AttrSpan, Message, get_value, with_msg_len}
use ezk.Stun.Builder.{MessageBuilder, set_len}
use ezk.Stun.Attribute.{Attribute, u16_try_from}

abbrev pub attribute_header_len : ℕ
attribute_header_len = 4

-- `==` of byte slices.
unfoldable pub same_bytes : List ℕ → List ℕ → Bool
same_bytes [] [] = true
same_bytes [] (b ∷ bs) = false
same_bytes (a ∷ rest) [] = false
same_bytes (a ∷ rest) (b ∷ bs) = a == b && same_bytes rest bs

module _ {Key : Type 0} (hmac : Key → List ℕ → List ℕ) where
  -- The digest of what stands in front of the attribute, against its value.
  unfoldable pub verify_digest : Key → AttrSpan → Message → Result Error (Unit {0})
  verify_digest key span msg =
      if same_bytes (hmac key (take (span.begin - attribute_header_len) msg.buffer))
        (get_value span msg.buffer)
      then ok tt
      else err (invalid_data "failed to verify message integrity")

  unfoldable pub message_integrity_decode :
      Key → Message → AttrSpan → Result Error (Unit {0}) × Message
  message_integrity_decode key msg span =
      if ltb (span.padding_end - stun_header_length) (2 ^ 16)
      then with_msg_len (span.padding_end - stun_header_length) (verify_digest key span) msg
      else (err try_from_int, msg)

  abbrev append_digest : Key → Option MessageBuilder → Option MessageBuilder
  append_digest key none = none
  append_digest key (some b) = some (record b {
    buffer = b.buffer ++ hmac key (take (length b.buffer - attribute_header_len) b.buffer);
  })

  -- The type and the length of the attribute are in the buffer already.
  unfoldable pub message_integrity_encode : ℕ → Key → MessageBuilder → Option MessageBuilder
  unfolding set_len
  message_integrity_encode output_size key b =
      if leb stun_header_length (length b.buffer + output_size)
        && ltb (length b.buffer + output_size - stun_header_length) (2 ^ 16)
      then append_digest key (set_len b (length b.buffer + output_size - stun_header_length))
      else none

  -- MESSAGE-INTEGRITY and MESSAGE-INTEGRITY-SHA256, by their types and the size of their digest.
  unfoldable pub integrity : ℕ → ℕ → Attribute Key (Unit {0})
  unfolding message_integrity_decode message_integrity_encode
  integrity t output_size = record {
    attr_type = t;
    decode = message_integrity_decode;
    encode = λ key v b. message_integrity_encode output_size key b;
    encode_len = λ v. u16_try_from output_size;
  }
