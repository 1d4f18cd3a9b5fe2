-- ===== src/Uv/Info/Operation.antt =====
-- proto/ctap2/model/get_info.rs: which operation `uv_operation` chooses, from the options.
use libwebauthn.Prelude.{◌≡◌, ◌↔◌, Bool, true, not, ◌&&◌, ◌||◌, some, arith}
use libwebauthn.Uv.Info.{
  GetInfo, UvOperation, get_token_using_uv, get_token_using_pin, get_pin_token,
  only_for_shared_secret, legacy_uv, option_exists, option_enabled, uv_operation,
}

-- Built-in verification can be used.
abbrev pub uses_uv : GetInfo → Bool → Bool
uses_uv info blocked = option_enabled info "uv" && not blocked

-- The options under which each operation is the one to use.
abbrev pub calls_for : UvOperation → GetInfo → Bool → Bool
calls_for get_token_using_uv info blocked =
    uses_uv info blocked && option_enabled info "pinUvAuthToken"
calls_for legacy_uv info blocked =
    uses_uv info blocked && not (option_enabled info "pinUvAuthToken")
calls_for get_token_using_pin info blocked =
    not (uses_uv info blocked)
    && option_enabled info "clientPin"
    && option_enabled info "pinUvAuthToken"
calls_for get_pin_token info blocked =
    not (uses_uv info blocked)
    && option_enabled info "clientPin"
    && not (option_enabled info "pinUvAuthToken")
calls_for only_for_shared_secret info blocked =
    not (uses_uv info blocked)
    && not (option_enabled info "clientPin")
    && (option_exists info "clientPin" || option_enabled info "pinUvAuthToken")

-- An operation is chosen exactly when the options call for it: built-in verification comes before
-- the PIN, a PIN needs "clientPin" set, a permission needs "pinUvAuthToken", and the shared secret
-- alone is for devices that have neither a usable built-in verification nor a PIN.
pub uv_operation-calls_for :
    (info : GetInfo) (blocked : Bool) (operation : UvOperation)
    → uv_operation info blocked ≡ some operation ↔ calls_for operation info blocked ≡ true
unfolding uv_operation
uv_operation-calls_for info blocked get_token_using_uv = ground arith
uv_operation-calls_for info blocked get_token_using_pin = ground arith
uv_operation-calls_for info blocked get_pin_token = ground arith
uv_operation-calls_for info blocked only_for_shared_secret = ground arith
uv_operation-calls_for info blocked legacy_uv = ground arith
