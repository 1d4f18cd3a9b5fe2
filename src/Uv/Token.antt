-- ===== src/Uv/Token.antt =====
-- proto/ctap2/model/client_pin.rs and transport/channel.rs: protocols, permissions, and the token
-- that a channel keeps.
pub mod Store
use libwebauthn.Prelude.{
  ℕ, bit_and, Bool, true, false, not, ◌||◌, Option, none, some, List, ◌==◌, if◌then◌else◌, String,
  str_eq,
}
use libwebauthn.Uv.Info.{UvOperation}

pub data PinUvAuthProtocol : Type 0 where
  one two : PinUvAuthProtocol

abbrev pub protocol_eq : PinUvAuthProtocol → PinUvAuthProtocol → Bool
protocol_eq one one = true
protocol_eq two two = true
protocol_eq _ _ = false

-- The bits of `Ctap2AuthTokenPermissionRole`.
abbrev pub make_credential : ℕ
make_credential = 0x01

abbrev pub get_assertion : ℕ
get_assertion = 0x02

unfoldable pub role_contains : ℕ → ℕ → Bool
role_contains role requested = bit_and role requested == requested

unfoldable pub role_intersects : ℕ → ℕ → Bool
role_intersects a b = not (bit_and a b == 0)

pub record AuthTokenPermission : Type 0 where
  pub pin_uv_auth_protocol : PinUvAuthProtocol
  pub role : ℕ
  pub rpid : Option String

-- `==` on `Option<String>`.
abbrev pub rpid_eq : Option String → Option String → Bool
rpid_eq none none = true
rpid_eq (some a) (some b) = str_eq a b
rpid_eq _ _ = false

unfoldable pub contains : AuthTokenPermission → AuthTokenPermission → Bool
contains stored requested =
    if not (protocol_eq stored.pin_uv_auth_protocol requested.pin_uv_auth_protocol)
    then false
    else if not (rpid_eq stored.rpid requested.rpid)
    then false
    else role_contains stored.role requested.role

pub record AuthTokenData : Type 0 where
  pub protocol_version : PinUvAuthProtocol
  pub key_agreement : List ℕ
  pub shared_secret : List ℕ
  pub uv_operation : UvOperation
  pub permission : Option AuthTokenPermission
  pub pin_uv_auth_token : Option (List ℕ)

-- `Ctap2AuthTokenStore::get_uv_auth_token`, over the data that the channel holds.
unfoldable pub get_uv_auth_token : Option AuthTokenData → AuthTokenPermission → Option (List ℕ)
get_uv_auth_token none requested = none
get_uv_auth_token (some stored) requested = elim stored.permission [
  | none ↦ none
  | some permission ↦ if contains permission requested then stored.pin_uv_auth_token else none
]

unfoldable pub token_len_valid : PinUvAuthProtocol → ℕ → Bool
token_len_valid one len = len == 16 || len == 32
token_len_valid two len = len == 32
