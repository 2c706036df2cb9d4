-- ===== src/Rtp/Packet.antt =====
-- media/rtp/src/rtp_packet.rs: the data of a packet. A byte is a number below 256.
use ezk.Common.{ℕ, Option, List}

-- `RtpExtensions` holds the one extension that the crate knows, `mid`.
pub record RtpExtensions : Type 0 where
  pub mid : Option (List ℕ)

-- `RtpExtensionIds`: the id under which `mid` is written and looked for.
pub record RtpExtensionIds : Type 0 where
  pub mid : Option ℕ

pub record RtpPacket : Type 0 where
  pub pt : ℕ
  pub sequence_number : ℕ
  pub ssrc : ℕ
  pub timestamp : ℕ
  pub extensions : RtpExtensions
  pub payload : List ℕ
