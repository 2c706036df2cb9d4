-- ===== src/Ice.antt =====
-- media/ice/src: the ICE agent.
pub mod Types
pub mod Stun
pub mod Pairs
pub mod Agent
pub mod Nomination
pub mod States
pub mod Poll
pub mod Response
pub mod Receive
