-- ===== src/Uv/Info.antt =====
-- proto/ctap2/model/get_info.rs: the getInfo response, its options, and the operation for user
-- verification that they allow. The record holds the members that the modelled code reads.
pub mod Operation
use libwebauthn.Prelude.{
  ℕ, Bool, true, false, not, ◌&&◌, ◌||◌, Option, none, some, List, [], ◌∷◌, if◌then◌else◌, String,
  str_eq, is_some,
}

pub data UvOperation : Type 0 where
  get_token_using_uv get_token_using_pin get_pin_token only_for_shared_secret legacy_uv :
      UvOperation

pub record GetInfo : Type 0 where
  pub versions : List String
  pub aaguid : List ℕ
  pub options : Option (List (String × Bool))
  pub pin_auth_protos : Option (List ℕ)
  pub force_pin_change : Option Bool
  pub min_pin_length : Option ℕ
  pub enc_identifier : Option (List ℕ)
  pub max_msg_size : Option ℕ
  pub max_credential_count : Option ℕ
  pub max_credential_id_length : Option ℕ

lookup_option : String → List (String × Bool) → Option Bool
lookup_option name [] = none
lookup_option name ((key, value) ∷ rest) =
    if str_eq key name then some value else lookup_option name rest

unfoldable pub option_of : GetInfo → String → Option Bool
unfolding lookup_option
option_of info name = elim info.options [ none ↦ none | some options ↦ lookup_option name options ]

abbrev pub is_true : Option Bool → Bool
is_true none = false
is_true (some b) = b

unfoldable pub option_exists : GetInfo → String → Bool
option_exists info name = is_some (option_of info name)

unfoldable pub option_enabled : GetInfo → String → Bool
option_enabled info name = is_true (option_of info name)

mentions : String → List String → Bool
mentions name [] = false
mentions name (x ∷ xs) = str_eq x name || mentions name xs

unfoldable pub supports_fido_2_1 : GetInfo → Bool
unfolding mentions
supports_fido_2_1 info = mentions "FIDO_2_1" info.versions

unfoldable pub is_uv_protected : GetInfo → Bool
is_uv_protected info =
    option_enabled info "uv"
    || option_enabled info "clientPin"
    || option_enabled info "pinUvAuthToken" && option_enabled info "uv"

unfoldable pub can_establish_shared_secret : GetInfo → Bool
can_establish_shared_secret info =
    option_exists info "clientPin"
    || option_exists info "uv" && option_enabled info "pinUvAuthToken"

unfoldable pub uv_operation : GetInfo → Bool → Option UvOperation
uv_operation info uv_blocked =
    if option_enabled info "uv" && not uv_blocked
    then if option_enabled info "pinUvAuthToken" then some get_token_using_uv else some legacy_uv
    else if option_exists info "clientPin" && not (option_enabled info "clientPin")
    then some only_for_shared_secret
    else if not (option_enabled info "clientPin")
        && option_exists info "uv"
        && option_enabled info "pinUvAuthToken"
    then some only_for_shared_secret
    else if option_enabled info "pinUvAuthToken"
    then (if not (option_enabled info "clientPin")
        then some only_for_shared_secret
        else some get_token_using_pin)
    else if option_enabled info "clientPin"
    then some get_pin_token
    else none
