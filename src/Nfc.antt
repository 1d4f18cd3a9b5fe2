-- ===== src/Nfc.antt =====
-- libwebauthn/src/transport/nfc: how a CTAP message is chained over APDUs, and how a long response is
-- put together.
pub mod Channel
pub mod Chained
pub mod Leaves
pub mod Chunks
pub mod Tests
