-- ===== src/Stun.antt =====
-- media/stun-types/src and media/stun/src: STUN messages as bytes, and the endpoint.
pub mod Header
pub mod Message
pub mod Builder
pub mod Attribute
pub mod Wire
pub mod Endpoint
