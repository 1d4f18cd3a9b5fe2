-- ===== src/Uv/Errors.antt =====
-- webauthn/error.rs and proto/error.rs: the errors of a ceremony, and why the user is asked for a PIN.
use libwebauthn.Prelude.{ℕ}

-- The codes that the modelled code tells apart; `ctap_code` stands for every other one.
pub data CtapError : Type 0 where
  uv_blocked uv_invalid pin_required pin_policy_violation other : CtapError
  pin_auth_invalid no_credentials : CtapError
  ctap_code : ℕ → CtapError

pub data PlatformError : Type 0 where
  pin_too_short pin_too_long pin_not_supported no_uv_available : PlatformError
  request_too_large not_supported : PlatformError
  invalid_device_response crypto_error cancelled : PlatformError

-- `out_of_rounds` is no error of the program: a loop of the model would have run out of fuel.
pub data UvError : Type 0 where
  ctap : CtapError → UvError
  platform : PlatformError → UvError
  transport : UvError
  out_of_rounds : UvError

-- The errors of a command: those of the device, and of the transport under it.
pub data CommandError : Type 0 where
  device_error : CtapError → CommandError
  transport_error : CommandError

pub data PinRequestReason : Type 0 where
  relying_party_request authenticator_policy fallback_from_uv : PinRequestReason

pub data PinNotSetReason : Type 0 where
  pin_not_set reason_too_short reason_too_long reason_policy pin_change_required : PinNotSetReason
