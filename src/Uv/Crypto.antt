-- ===== src/Uv/Crypto.antt =====
-- The cryptography that the ceremony relies on (`PinUvAuthProtocol`, `pin_hash`, the persistent
-- token's identifier, Unicode normalization): a parameter of the model. Keys and texts are bytes.
-- `listed` is the order in which Rust's `HashMap` goes over its entries, which it leaves open.
use libwebauthn.Prelude.{ℕ, List, Result}
use libwebauthn.Uv.Errors.{PlatformError}
use libwebauthn.Uv.Token.{PinUvAuthProtocol}
use libwebauthn.Uv.Records.{TokenStore}

pub record Crypto : Type 0 where
  pub encapsulate : PinUvAuthProtocol → List ℕ → Result PlatformError (List ℕ × List ℕ)
  pub encrypt : PinUvAuthProtocol → List ℕ → List ℕ → Result PlatformError (List ℕ)
  pub decrypt : PinUvAuthProtocol → List ℕ → List ℕ → Result PlatformError (List ℕ)
  pub authenticate : PinUvAuthProtocol → List ℕ → List ℕ → Result PlatformError (List ℕ)
  pub pin_hash : List ℕ → List ℕ
  pub decrypt_identifier : List ℕ → List ℕ → Result PlatformError (List ℕ)
  pub normalize : List ℕ → List ℕ
  pub count_chars : List ℕ → ℕ
  pub listed : TokenStore → TokenStore
