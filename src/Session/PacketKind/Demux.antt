-- ===== src/Session/PacketKind/Demux.antt =====
-- What `identify` of media/session/src/transport/packet_kind.rs reads from the first two bytes.
use ezk.Common.{ℕ, ◌<◌, ◌≤◌, ◌+◌, ◌/◌, ◌≡◌, ◌↔◌, ◌⊎◌, List, ◌∷◌, arith}
use ezk.Session.PacketKind.{PacketKind, identify}

-- A packet of at least two bytes is taken for RTP or RTCP exactly when the version in its first
-- two bits is 2, and for STUN exactly when its first byte is 0 or 1; the marker bit of an RTP
-- packet does not change what it is taken for.
identify-version :
    (byte pt : ℕ) (rest : List ℕ)
    → pt < 128
    → (((identify (byte ∷ pt ∷ rest) ≡ PacketKind.rtp)
          ⊎ (identify (byte ∷ pt ∷ rest) ≡ PacketKind.rtcp))
        ↔ (byte / 64 ≡ 2))
      × (((identify (byte ∷ pt ∷ rest) ≡ PacketKind.stun) ↔ (byte ≤ 1))
          × (identify (byte ∷ (pt + 128) ∷ rest) ≡ identify (byte ∷ pt ∷ rest)))
unfolding identify
identify-version byte pt rest h = (ground arith, (ground arith, ground arith))
