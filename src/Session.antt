-- ===== src/Session.antt =====
-- media/session/src: what the transports of a media session share.
pub mod PacketKind
