-- ===== src/Stun/Attribute/Fingerprint.antt =====
-- media/stun-types/src/attributes/fingerprint.rs.
use ezk.Common.{
  ℕ, zero, suc, ◌+◌, ◌-◌, ◌/◌, ◌^◌, List, [], ◌∷◌, Option, none, some, ◌&&◌, length, take, leb, ltb,
  ◌==◌, if◌then◌else◌, bit_and, bit_xor,
}
use ezk.Common.BufMut.{BufMut}
use ezk.Common.Bytes.{ReadBytes}
use ezk.Common.Result.{Result, ok, err, ◌>>=◌}
use ezk.Stun.Header.{Error, invalid_data, try_from_int, stun_header_length}
use ezk.Stun.Message.{AttrSpan, Message, get_value, with_msg_len, read_word, fingerprint_type}
use ezk.Stun.Builder.{MessageBuilder, set_len}
use ezk.Stun.Attribute.{Attribute}
use ezk.Stun.Attribute.Integrity.{attribute_header_len}

-- The eight rounds for an entry of the table.
unfoldable pub table_rounds : ℕ → ℕ → ℕ
table_rounds zero c = c
table_rounds (suc k) c =
    table_rounds k (if bit_and c 1 == 1 then bit_xor 0xedb88320 (c / 2) else c / 2)

unfoldable pub crc32_table : ℕ → ℕ
unfolding table_rounds
crc32_table n = table_rounds 8 n

unfoldable pub crc32_steps : ℕ → List ℕ → ℕ
unfolding crc32_table
crc32_steps c [] = c
crc32_steps c (b ∷ buf) =
    crc32_steps (bit_xor (crc32_table (bit_and (bit_xor c b) 0xff)) (c / 2 ^ 8)) buf

unfoldable pub update_crc32 : ℕ → List ℕ → ℕ
unfolding crc32_steps
update_crc32 crc buf = bit_xor (crc32_steps (bit_xor crc 0xffffffff) buf) 0xffffffff

unfoldable pub crc32 : List ℕ → ℕ
unfolding update_crc32
crc32 buf = update_crc32 0 buf

abbrev pub fingerprint_xor : ℕ
fingerprint_xor = 0x5354554e

unfoldable pub verify_fingerprint : ReadBytes → AttrSpan → Message → Result Error (Unit {0})
unfolding get_value crc32
verify_fingerprint rd span msg =
    let value = get_value span msg.buffer in
    if length value == 4
    then (do
      (attr_value, _) ← read_word rd 4 value
      let crc =
          bit_xor (crc32 (take (span.begin - attribute_header_len) msg.buffer)) fingerprint_xor
      if crc == attr_value
          then ok tt
          else err (invalid_data "failed to verify message fingerprint"))
    else err (invalid_data "fingerprint value must be 4 bytes")

abbrev append_crc : BufMut → Option MessageBuilder → Option MessageBuilder
unfolding crc32
append_crc buf none = none
append_crc buf (some b) = some (record b {
  buffer =
      buf.put_word 4 b.buffer
        (bit_xor (crc32 (take (length b.buffer - attribute_header_len) b.buffer)) fingerprint_xor);
})

unfoldable pub fingerprint : ReadBytes → BufMut → Attribute (Unit {0}) (Unit {0})
unfolding with_msg_len verify_fingerprint set_len crc32
fingerprint rd buf = record {
  attr_type = fingerprint_type;
  decode = λ ctx msg span.
      if ltb (span.padding_end - stun_header_length) (2 ^ 16)
      then with_msg_len (span.padding_end - stun_header_length) (verify_fingerprint rd span) msg
      else (err try_from_int, msg);
  encode = λ ctx v b.
      if leb stun_header_length (length b.buffer + 4)
        && ltb (length b.buffer + 4 - stun_header_length) (2 ^ 16)
      then append_crc buf (set_len b (length b.buffer + 4 - stun_header_length))
      else none;
  encode_len = λ v. some 4;
}
