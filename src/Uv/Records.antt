-- ===== src/Uv/Records.antt =====
-- pin/persistent_token.rs: records of persistent tokens, and the map of the in-memory store: an
-- association list from record ids. Its own order means nothing: a listing has another.
use libwebauthn.Prelude.{ℕ, List, String}
use libwebauthn.Uv.Token.{PinUvAuthProtocol}

pub record TokenRecord : Type 0 where
  pub persistent_token : List ℕ
  pub protocol : PinUvAuthProtocol
  pub device_identifier : List ℕ
  pub aaguid : List ℕ

abbrev pub TokenStore : Type 0
TokenStore = List (String × TokenRecord)
