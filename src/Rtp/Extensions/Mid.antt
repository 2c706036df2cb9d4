-- ===== src/Rtp/Extensions/Mid.antt =====
-- How media/rtp/src/rtp_packet.rs writes its one extension, and what reads it back.
use mathlib.Core.List.{append_assoc}
use native.Mathlib.Decide.{dec_lt}
use ezk.Common.{
  ℕ, zero, suc, ◌+◌, ◌*◌, ◌/◌, ◌%◌, ◌≤◌, ◌<◌, ◌≡◌, ◌≢◌, List, [], ◌∷◌, ◌++◌, some, false, length,
  take, drop, arith, length-append, take-append, drop-append, replicate,
}
use ezk.Common.Bits.{high_nibble, low_nibble, join_nibbles}
use ezk.Common.BufMut.{BufMut, to_be_bytes}
use ezk.Rtp.Packet.{RtpExtensions, RtpExtensionIds}
use ezk.Rtp.Extensions.{
  with_one, padding_32_bit_boundry, parse_onebyte, parse_extensions, panics, extension, write,
}
use ezk.Rtp.Extensions.TwoByte.{with_two_lem}

abbrev pub with_mid : List ℕ → RtpExtensions
with_mid mid = record { mid = some mid }

abbrev pub under : ℕ → RtpExtensionIds
under id = record { mid = some id }

-- A `mid` of more than 16 bytes goes to the one-byte form, whose assertion on 15 bytes it fails.
write_long_panics :
    (buf : BufMut) (id : ℕ) (mid : List ℕ)
    → 16 < length mid
    → write buf (with_mid mid) (under id) ≡ panics
unfolding write with_one
write_long_panics buf id mid h = ground arith

-- A shorter one is written in the two-byte form under the profile of the one-byte form.
write_short :
    (buf : BufMut) (id : ℕ) (mid : List ℕ)
    → length mid ≤ 16
    → write buf (with_mid mid) (under id)
      ≡ extension 0xbede
          (id ∷ length mid ∷ (mid ++ replicate (padding_32_bit_boundry (length mid + 2)) 0))
unfolding write
write_short buf id mid h =
    let n : ℕ = length mid in
    let start : 0 + (n + 2) ≡ n + 2 = omega arith in
    ground (
      arith,
      start,
      with_two_lem buf [] 0 id mid (omega arith),
      buf.put_bytes-append (id ∷ length mid ∷ mid) 0 (padding_32_bit_boundry (n + 2)),
    )

-- The first item that the one-byte reader finds has the id's high nibble for its id.
parse_onebyte_first :
    (fuel id : ℕ) (rest : List ℕ) (item : ℕ × List ℕ) (items : List (ℕ × List ℕ))
    → id < 256
    → parse_onebyte fuel (id ∷ rest) ≡ item ∷ items
    → item.0 ≡ id / 16
unfolding parse_onebyte
parse_onebyte_first zero id rest item items h e = cc
parse_onebyte_first (suc fuel) id rest item items h e = ground (arith, high_nibble id h)

unreadable :
    (id : ℕ) (rest mid : List ℕ)
    → 0 < id
    → id < 256
    → parse_extensions 0xbede (id ∷ rest) ≢ (id, mid) ∷ []
unfolding parse_extensions
unreadable id rest mid lo hi e =
    let first : id ≡ id / 16 = parse_onebyte_first (suc (length rest)) id rest (id, mid) [] hi e in
    omega arith

-- No `mid` can be written so that the reader gives it back: for every id from 1 to 255 that does
-- not panic, the reader yields something else than the one item that was written.
pub write_unreadable :
    (buf : BufMut) (id : ℕ) (mid bytes : List ℕ) (profile : ℕ)
    → 0 < id
    → id < 256
    → write buf (with_mid mid) (under id) ≡ extension profile bytes
    → parse_extensions profile bytes ≢ (id, mid) ∷ []
write_unreadable buf id mid bytes profile lo hi w e = elim (dec_lt 16 (length mid)) [
  | yes long ↦ cc (write_long_panics buf id mid long)
  | no short ↦
      let written = write_short buf id mid (omega arith) in
      let pad = replicate (padding_32_bit_boundry (length mid + 2)) 0 in
      unreadable id (length mid ∷ (mid ++ pad)) mid lo hi (cc (written, e))
]

take-append_one :
    (bytes : List ℕ) (y : ℕ) (rest : List ℕ)
    → take (length bytes + 1) (bytes ++ (y ∷ rest)) ≡ bytes ++ (y ∷ [])
take-append_one bytes y rest =
    rw (← append_assoc bytes (y ∷ []) rest, ← length-append bytes (y ∷ []))
      (take-append (bytes ++ (y ∷ [])) rest)

drop-append_one :
    (bytes : List ℕ) (y : ℕ) (rest : List ℕ) → drop (length bytes + 1) (bytes ++ (y ∷ rest)) ≡ rest
drop-append_one bytes y rest =
    rw (← append_assoc bytes (y ∷ []) rest, ← length-append bytes (y ∷ []))
      (drop-append (bytes ++ (y ∷ [])) rest)

one_byte : (v : ℕ) → v < 256 → to_be_bytes 1 v ≡ v ∷ []
unfolding to_be_bytes
one_byte v h = ground arith

-- A one-byte item that is followed by a byte `y` is read with that byte: the writer puts the
-- length where the reader expects the length less one.
parse_onebyte-with_one :
    (buf : BufMut) (id fuel y : ℕ) (bytes rest : List ℕ)
    → 0 < id
    → id < 15
    → 0 < length bytes
    → length bytes ≤ 15
    → (head : ℕ) × (with_one buf (record { writer = []; len = 0; two_byte = false }) id bytes
        ≡ some (record { writer = head ∷ bytes; len = length bytes + 1; two_byte = false }))
      × (parse_onebyte (suc fuel) ((head ∷ bytes) ++ (y ∷ rest))
          ≡ (id, bytes ++ (y ∷ [])) ∷ parse_onebyte fuel rest)
unfolding with_one parse_onebyte
parse_onebyte-with_one buf id fuel y bytes rest lo hi ne short =
    let head : ℕ = id * 16 + length bytes in
    let n : ℕ = length bytes in
    let small : n % 256 ≡ n = omega arith in
    let shifted : id * 16 % 256 ≡ id * 16 = omega arith in
    let one : to_be_bytes 1 head ≡ head ∷ [] = one_byte head (omega arith) in
    let len : 0 + (n + 1) ≡ n + 1 = omega arith in
    (
      head,
      ground (
        arith,
        small,
        shifted,
        len,
        one,
        join_nibbles id n (omega arith) (omega arith),
        buf.put_word-append 1 [] head (omega arith),
        buf.put_slice-append (head ∷ []) bytes,
      ),
      ground (
        arith,
        high_nibble head (omega arith),
        low_nibble head (omega arith),
        take-append_one bytes y rest,
        drop-append_one bytes y rest,
        length-append bytes (y ∷ rest),
      ),
    )
