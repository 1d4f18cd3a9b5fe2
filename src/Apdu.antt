-- ===== src/Apdu.antt =====
-- proto/ctap1/apdu: requests in their short and long form, and responses.
pub mod Request
pub mod Response
mod Tests
