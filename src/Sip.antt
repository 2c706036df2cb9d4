-- ===== src/Sip.antt =====
-- The crates under sip/: message headers, transaction keys and the transaction state machines.
pub mod Headers
pub mod StatusCode
pub mod Method
pub mod Params
pub mod TsxKey
pub mod Dialog
pub mod Streaming
pub mod Endpoint
pub mod ClientTsx
pub mod ClientInvTsx
pub mod ServerTsx
pub mod ServerInvTsx
