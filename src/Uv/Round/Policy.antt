-- ===== src/Uv/Round/Policy.antt =====
-- webauthn/pin_uv_auth_token.rs: what `enforce_no_mc_ga_with_client_pin` guarantees.
use libwebauthn.Prelude.{
  ℕ, ◌+◌, ◌≡◌, ◌⊎◌, refl, arith, Bool, true, false, ◌&&◌, some, if◌then◌else◌, ok, err,
}
use libwebauthn.Uv.Errors.{no_uv_available}
use libwebauthn.Uv.Info.{
  GetInfo, UvOperation, get_token_using_uv, get_token_using_pin, get_pin_token,
  only_for_shared_secret, legacy_uv, option_enabled, uv_operation,
}
use libwebauthn.Uv.Token.{role_intersects, make_credential, get_assertion}
use libwebauthn.Uv.Round.{is_client_pin, enforce_no_mc_ga_with_client_pin}

-- A PIN token with these permissions is against the device's policy.
abbrev pub is_forbidden : GetInfo → ℕ → UvOperation → Bool
is_forbidden info permissions operation =
    is_client_pin operation
    && role_intersects permissions (make_credential + get_assertion)
    && option_enabled info "noMcGaPermissionsWithClientPin"

-- What passes is allowed, and is the operation that was chosen, or built-in verification on a
-- device that can use it.
pub enforce_no_mc_ga_with_client_pin-ok :
    (info : GetInfo) (permissions : ℕ) (uv_unavailable : Bool) (operation passed : UvOperation)
    → enforce_no_mc_ga_with_client_pin info operation permissions uv_unavailable ≡ ok passed
    → (is_forbidden info permissions passed ≡ false)
      × ((operation ≡ passed)
          ⊎ (passed ≡ get_token_using_uv)
            × (option_enabled info "uv" ≡ true)
            × (uv_unavailable ≡ false))
unfolding enforce_no_mc_ga_with_client_pin
enforce_no_mc_ga_with_client_pin-ok info permissions unavailable operation get_token_using_uv h =
    (refl, ground arith)
enforce_no_mc_ga_with_client_pin-ok info permissions unavailable operation legacy_uv h =
    (refl, ground arith)
enforce_no_mc_ga_with_client_pin-ok info permissions unavailable operation only_for_shared_secret
      h =
    (refl, ground arith)
enforce_no_mc_ga_with_client_pin-ok info permissions unavailable operation get_pin_token h =
    (ground arith, ground arith)
enforce_no_mc_ga_with_client_pin-ok info permissions unavailable operation get_token_using_pin h =
    (ground arith, ground arith)

-- On the operation that `uv_operation` chooses the check never goes over to built-in verification:
-- a forbidden operation is an error, and every other passes as it is.
pub enforce_no_mc_ga_with_client_pin-uv_operation :
    (info : GetInfo) (permissions : ℕ) (blocked : Bool) (operation : UvOperation)
    → uv_operation info blocked ≡ some operation
    → enforce_no_mc_ga_with_client_pin info operation permissions blocked
      ≡ (if is_forbidden info permissions operation then err no_uv_available else ok operation)
unfolding enforce_no_mc_ga_with_client_pin uv_operation
enforce_no_mc_ga_with_client_pin-uv_operation info permissions blocked get_token_using_uv h = refl
enforce_no_mc_ga_with_client_pin-uv_operation info permissions blocked legacy_uv h = refl
enforce_no_mc_ga_with_client_pin-uv_operation info permissions blocked only_for_shared_secret h =
    refl
enforce_no_mc_ga_with_client_pin-uv_operation info permissions blocked get_pin_token h =
    ground arith
enforce_no_mc_ga_with_client_pin-uv_operation info permissions blocked get_token_using_pin h =
    ground arith
