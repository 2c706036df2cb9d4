-- ===== src/Tests.antt =====
-- Concrete runs of the models, and the theorems applied to them.
mod Rtp
mod RtpSession
mod Stun
mod Sip
mod Calls
mod Invites
mod Streams
mod Dispatch
mod Ice
mod Peers
mod Session
