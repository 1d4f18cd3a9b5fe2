-- ===== src/Domains.antt =====
-- Which relying-party ids an origin may use: libwebauthn/src/ops/webauthn/psl, idl/origin.rs,
-- idl/rpid.rs and related_origins.
pub mod Text
pub mod Suffix
pub mod Dafsa
pub mod RpId
pub mod Related
pub mod Tests
