-- ===== src/Session/PacketKind.antt =====
-- media/session/src/transport/packet_kind.rs: which protocol a packet on a shared socket is of.
-- A packet is the list of its bytes.
pub mod Demux
use ezk.Common.{ℕ, ◌%◌, List, [], ◌∷◌, Bool, ◌&&◌, ◌||◌, leb, ◌==◌, if◌then◌else◌}

pub data PacketKind : Type 0 where
  rtp rtcp stun dtls unknown : PacketKind

abbrev within : ℕ → ℕ → ℕ → Bool
within lo hi byte = leb lo byte && leb byte hi

-- `pt & 0x7F` is the remainder by 128.
unfoldable pub identify : List ℕ → PacketKind
identify [] = PacketKind.unknown
identify (byte ∷ []) = PacketKind.unknown
identify (byte ∷ pt ∷ rest) =
    if byte == 0 || byte == 1
    then PacketKind.stun
    else if within 20 63 byte
    then PacketKind.dtls
    else if within 128 191 byte
    then (if within 64 95 (pt % 128) then PacketKind.rtcp else PacketKind.rtp)
    else PacketKind.unknown
