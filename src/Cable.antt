-- ===== src/Cable.antt =====
-- libwebauthn/src/transport/cable: the digits in which a QR code carries its bytes.
pub mod Digits
pub mod Decimal
pub mod Chunk
pub mod RoundTrip
pub mod Tests
