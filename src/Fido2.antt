-- ===== src/Fido2.antt =====
-- libwebauthn/src/webauthn.rs and proto/ctap2/preflight.rs: the commands of a ceremony around user
-- verification.
pub mod Limits
pub mod Preflight
pub mod Retry
pub mod Assertion
pub mod Tests
