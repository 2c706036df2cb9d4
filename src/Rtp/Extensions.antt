-- ===== src/Rtp/Extensions.antt =====
-- media/rtp/src/extensions.rs, and the use that media/rtp/src/rtp_packet.rs makes of it.
-- A byte is a number below 256; the writing methods of the crate `bytes` are the parameter `buf`.
pub mod TwoByte
pub mod Mid
use ezk.Common.{
  ℕ, zero, suc, ◌+◌, ◌*◌, ◌/◌, ◌%◌, List, [], ◌∷◌, Option, none, some, Bool, true, false, ◌&&◌, not,
  length, take, drop, leb, ◌==◌, if◌then◌else◌, bit_and, bit_or,
}
use ezk.Common.BufMut.{BufMut}
use ezk.Rtp.Packet.{RtpExtensions, RtpExtensionIds}

unfoldable pub padding_32_bit_boundry : ℕ → ℕ
padding_32_bit_boundry i =
    let r = i % 4 in if r == 0 then 0 else if r == 1 then 3 else if r == 2 then 2 else 1

pub record RtpExtensionsWriter : Type 0 where
  pub writer : List ℕ
  pub len : ℕ
  pub two_byte : Bool

abbrev pub is_empty : List ℕ → Bool
is_empty [] = true
is_empty (b ∷ bs) = false

module _ (buf : BufMut) where
  unfoldable pub new : List ℕ → Bool → RtpExtensionsWriter
  new writer two_byte = record { writer = writer; len = 0; two_byte = two_byte }

  -- `none` is a failed assertion. `id << 4` keeps the low 8 bits.
  unfoldable pub with_one : RtpExtensionsWriter → ℕ → List ℕ → Option RtpExtensionsWriter
  with_one w id bytes =
      if leb (length bytes) 15 && not (is_empty bytes)
      then some (record w {
        writer =
            buf.put_slice (buf.put_word 1 w.writer (bit_or (length bytes % 256) (id * 16 % 256)))
              bytes;
        len = w.len + (length bytes + 1);
      })
      else none

  unfoldable pub with_two : RtpExtensionsWriter → ℕ → List ℕ → Option RtpExtensionsWriter
  with_two w id bytes =
      if leb (length bytes) 255
      then some (record w {
        writer = buf.put_slice (buf.put_slice w.writer (id ∷ length bytes % 256 ∷ [])) bytes;
        len = w.len + (length bytes + 2);
      })
      else none

  unfoldable pub with : RtpExtensionsWriter → ℕ → List ℕ → Option RtpExtensionsWriter
  unfolding with_one with_two
  with w id bytes = if w.two_byte then with_two w id bytes else with_one w id bytes

  -- The profile, and the buffer that the writer borrowed.
  unfoldable pub finish : RtpExtensionsWriter → ℕ × List ℕ
  unfolding padding_32_bit_boundry
  finish w = (
    (if w.two_byte then 0xbede else 0x0100),
    buf.put_bytes w.writer 0 (padding_32_bit_boundry w.len),
  )

-- The items that `parse_onebyte` yields until it first answers `None`. Every item takes a byte at
-- least, so fuel for the length of the slice is enough.
unfoldable pub parse_onebyte : ℕ → List ℕ → List (ℕ × List ℕ)
parse_onebyte zero input = []
parse_onebyte (suc fuel) [] = []
parse_onebyte (suc fuel) (b ∷ remaining) =
    let id = bit_and b 0xf0 / 16 in
    let len = bit_and b 0x0f + 1 in
    let more = parse_onebyte fuel (drop len remaining) in
    if b == 0
    then []
    else if id == 15
    then []
    else if leb len (length remaining)
    then (id, take len remaining) ∷ more
    else []

unfoldable pub parse_twobyte : ℕ → List ℕ → List (ℕ × List ℕ)
parse_twobyte zero input = []
parse_twobyte (suc fuel) [] = []
parse_twobyte (suc fuel) (id ∷ []) = []
parse_twobyte (suc fuel) (id ∷ len ∷ remaining) =
    let more = parse_twobyte fuel (drop len remaining) in
    if id == 0 && len == 0
    then []
    else if leb len (length remaining)
    then (id, take len remaining) ∷ more
    else []

unfoldable pub parse_extensions : ℕ → List ℕ → List (ℕ × List ℕ)
unfolding parse_onebyte parse_twobyte
parse_extensions profile input =
    if profile == 0xbede
    then parse_onebyte (length input) input
    else if bit_and profile 0xfff == 0x100
    then parse_twobyte (length input) input
    else []

-- `Some(id) == ids.mid`.
abbrev pub is_id : Option ℕ → ℕ → Bool
is_id none id = false
is_id (some i) id = id == i

-- The loop of `RtpExtensions::from_packet`: the last item with the id wins.
unfoldable pub collect_mid : Option ℕ → List (ℕ × List ℕ) → Option (List ℕ) → Option (List ℕ)
collect_mid wanted [] mid = mid
collect_mid wanted ((id, bytes) ∷ items) mid =
    collect_mid wanted items (if is_id wanted id then some bytes else mid)

unfoldable pub from_packet : RtpExtensionIds → ℕ → List ℕ → RtpExtensions
unfolding parse_extensions collect_mid
from_packet ids profile extension_data = record {
  mid = collect_mid ids.mid (parse_extensions profile extension_data) none;
}

-- `RtpExtensions::write`: `unchanged` leaves the packet builder as it was.
pub data Written : Type 0 where
  unchanged panics : Written
  extension : ℕ → List ℕ → Written

module _ (buf : BufMut) where
  abbrev finish_writer : Option RtpExtensionsWriter → Written
  unfolding finish
  finish_writer none = panics
  finish_writer (some w) = let (profile, bytes) = finish buf w in extension profile bytes

  abbrev write_mid : Option ℕ → Option (List ℕ) → Written
  unfolding new with finish
  write_mid none mid = unchanged
  write_mid (some id) none = unchanged
  write_mid (some id) (some mid) =
      finish_writer (with buf (new buf [] (leb (length mid) 16)) id mid)

  unfoldable pub write : RtpExtensions → RtpExtensionIds → Written
  unfolding new with finish
  write extensions ids = write_mid ids.mid extensions.mid
