-- ===== src/Ble.antt =====
-- transport/ble: CTAP frames, their fragments, and the connection that exchanges them.
pub mod Frame
pub mod Fragments
pub mod Parser
pub mod Connection
mod Tests
