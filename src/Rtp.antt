-- ===== src/Rtp.antt =====
-- The crate media/rtp: packets, extended counters, header extensions and the jitter buffer.
pub mod Packet
pub mod Counter
pub mod Jitter
pub mod Extensions
pub mod Session
