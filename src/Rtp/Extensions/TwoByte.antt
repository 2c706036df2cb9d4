-- ===== src/Rtp/Extensions/TwoByte.antt =====
-- The two-byte form of media/rtp/src/extensions.rs: what is written is what is read.
use mathlib.Core.List.{append-nil, append_assoc}
use ezk.Common.{
  ℕ, zero, suc, ◌+◌, ◌%◌, ◌≤◌, ◌<◌, ◌≡◌, refl, ap, ◌∙◌, List, [], ◌∷◌, ◌++◌, Option, none, some,
  true, length, All, arith, length-append, take-append, drop-append, replicate, length-replicate,
}
use ezk.Common.BufMut.{BufMut}
use ezk.Rtp.Extensions.{
  RtpExtensionsWriter, new, with, with_two, finish, padding_32_bit_boundry, parse_twobyte,
}

-- What two bytes can say of an item: a length in one byte, and not two zeros.
pub record IsItem (item : ℕ × List ℕ) : Type 0 where
  pub short : length item.1 ≤ 255
  pub not_padding : 0 < item.0 + length item.1

-- Calls of `with`, one after the other.
pub with_all : BufMut → RtpExtensionsWriter → List (ℕ × List ℕ) → Option RtpExtensionsWriter
with_all buf w [] = some w
with_all buf w ((id, bytes) ∷ items) = elim (with buf w id bytes) [
  | none ↦ none
  | some w' ↦ with_all buf w' items
]

abbrev pub encoding : List (ℕ × List ℕ) → List ℕ
encoding [] = []
encoding ((id, bytes) ∷ items) = id ∷ length bytes ∷ (bytes ++ encoding items)

abbrev pub two_byte_writer : List ℕ → ℕ → RtpExtensionsWriter
two_byte_writer writer len = record { writer = writer; len = len; two_byte = true }

pub with_two_lem :
    (buf : BufMut) (writer : List ℕ) (len id : ℕ) (bytes : List ℕ)
    → length bytes ≤ 255
    → with buf (two_byte_writer writer len) id bytes
      ≡ some (two_byte_writer (writer ++ (id ∷ length bytes ∷ bytes)) (len + (length bytes + 2)))
unfolding with with_two
with_two_lem buf writer len id bytes h =
    let small : length bytes % 256 ≡ length bytes = omega arith in
    ground (
      arith,
      small,
      buf.put_slice-append writer (id ∷ length bytes ∷ []),
      buf.put_slice-append (writer ++ (id ∷ length bytes ∷ [])) bytes,
      append_assoc writer (id ∷ length bytes ∷ []) bytes,
    )

with_all-encoding :
    (buf : BufMut) (items : List (ℕ × List ℕ)) (writer : List ℕ) (len : ℕ)
    → All IsItem items
    → with_all buf (two_byte_writer writer len) items
      ≡ some (two_byte_writer (writer ++ encoding items) (len + length (encoding items)))
unfolding with_all
with_all-encoding buf [] writer len h =
    let same : len + 0 ≡ len = omega arith in rw (append-nil, same)
with_all-encoding buf ((id, bytes) ∷ items) writer len h =
    let ih =
      with_all-encoding buf items (writer ++ (id ∷ length bytes ∷ bytes)) (len + (length bytes + 2))
        h.1 in
    let total : len + (length bytes + 2) + length (encoding items)
        ≡ len + suc (suc (length (bytes ++ encoding items))) =
      omega (arith, length-append bytes (encoding items)) in
    rw (with_two_lem buf writer len id bytes h.0.short, with_all)
      (ih ∙ rw (total, append_assoc writer (id ∷ length bytes ∷ bytes) (encoding items)))

parse_twobyte-zeros : (fuel n : ℕ) → parse_twobyte fuel (replicate n 0) ≡ []
unfolding parse_twobyte
parse_twobyte-zeros zero n = refl
parse_twobyte-zeros (suc fuel) zero = refl
parse_twobyte-zeros (suc fuel) (suc zero) = refl
parse_twobyte-zeros (suc fuel) (suc (suc n)) = refl

parse_twobyte-item :
    (fuel id : ℕ) (bytes rest : List ℕ)
    → IsItem (id, bytes)
    → parse_twobyte (suc fuel) (id ∷ length bytes ∷ (bytes ++ rest))
      ≡ (id, bytes) ∷ parse_twobyte fuel rest
unfolding parse_twobyte
parse_twobyte-item fuel id bytes rest h =
    ground (arith, take-append bytes rest, drop-append bytes rest, length-append bytes rest)

parse_twobyte-encoding :
    (items : List (ℕ × List ℕ)) (fuel n : ℕ)
    → All IsItem items
    → length (encoding items) ≤ fuel
    → parse_twobyte fuel (encoding items ++ replicate n 0) ≡ items
parse_twobyte-encoding [] fuel n h le = parse_twobyte-zeros fuel n
parse_twobyte-encoding ((id, bytes) ∷ items) zero n h le = absurd (omega arith)
parse_twobyte-encoding ((id, bytes) ∷ items) (suc fuel) n h le =
    rw (append_assoc bytes (encoding items) (replicate n 0)) (
      parse_twobyte-item fuel id bytes (encoding items ++ replicate n 0) h.0
      ∙ ap (◌∷◌ (id, bytes)) (
          parse_twobyte-encoding items fuel n h.1
            (omega (arith, length-append bytes (encoding items)))))

padding-aligns : (n : ℕ) → ((n + padding_32_bit_boundry n) % 4 ≡ 0) × (padding_32_bit_boundry n < 4)
unfolding padding_32_bit_boundry
padding-aligns n = ground arith

-- Items whose data have at most 255 bytes, and of which none has the id 0 and no data, which would be
-- read as padding, are written in the two-byte form without a panic; the bytes are a whole number
-- of 32-bit words, and reading them as the two-byte form gives the items back.
pub parse_twobyte-with_all :
    (buf : BufMut) (items : List (ℕ × List ℕ))
    → All IsItem items
    → (w : RtpExtensionsWriter) × (with_all buf (new buf [] true) items ≡ some w)
      × (length (finish buf w).1 % 4 ≡ 0)
      × (parse_twobyte (length (finish buf w).1) (finish buf w).1 ≡ items)
unfolding new finish
parse_twobyte-with_all buf items h =
    let size = length (encoding items) in
    let pad = padding_32_bit_boundry size in
    let same : 0 + size ≡ size = omega arith in
    let bytes : buf.put_bytes (encoding items) 0 pad ≡ encoding items ++ replicate pad 0 =
      buf.put_bytes-append (encoding items) 0 pad (omega arith) in
    (
      two_byte_writer (encoding items) size,
      with_all-encoding buf items [] 0 h ∙ rw same,
      rw bytes (
          omega (
            arith,
            padding-aligns size,
            length-append (encoding items) (replicate pad 0),
            length-replicate {A = ℕ} pad 0,
          )),
      rw bytes (
          parse_twobyte-encoding items _ pad h
            (omega (arith, length-append (encoding items) (replicate pad 0)))),
    )
