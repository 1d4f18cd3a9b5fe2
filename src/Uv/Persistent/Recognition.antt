-- ===== src/Uv/Persistent/Recognition.antt =====
-- pin/persistent_token.rs: an authenticator is recognized by the record that was minted for it.
use libwebauthn.Uv.Crypto.{Crypto}
