-- ===== src/Fido2/Assertion.antt =====
-- webauthn.rs: `get_assertion_fido2`, up to the responses that it collects. Parameters are what other
-- crates do: the building and encoding of the request, its extensions, and SHA-256.
pub mod Genuine
pub mod Bounded
use libwebauthn.Prelude.{
  ℕ, zero, suc, ◌-◌, Bool, true, false, not, ◌&&◌, Option, none, some, List, [], ◌∷◌, ◌==◌, leb,
  if◌then◌else◌, length, bytes_eq, String, Result, ok, err,
}
use Prim.Native.Nat.{min}
use libwebauthn.Uv.Errors.{
  UvError, PlatformError, ctap, platform, no_credentials, not_supported, invalid_device_response,
}
use libwebauthn.Uv.Crypto.{Crypto}
use libwebauthn.Uv.Info.{GetInfo}
use libwebauthn.Uv.Token.{AuthTokenData}
use libwebauthn.Uv.World.{
  World, Ceremony, Call, AssertionRequest, AssertionReply, pure, raise, lift, attempt, note,
  of_platform, ◌>>=◌, ◌>>◌, ctap2_get_info, send_command, get_assertion, get_next_assertion,
  dummy_make_credential, presence_required,
}
use libwebauthn.Uv.Round.{UserVerificationRequirement}
use libwebauthn.Fido2.Limits.{filter_oversized_credentials, enforce_get_assertion_limits}
use libwebauthn.Fido2.Preflight.{preflight}
use libwebauthn.Fido2.Retry.{Command, outcome_of, command_loop}

pub record AssertionOp : Type 0 where
  pub allow_list : List (List ℕ)
  pub user_verification_requirement : UserVerificationRequirement
  pub rp_id : String
  pub writes_large_blob : Bool

pub record Environment : Type 0 where
  pub supports_preflight : Bool
  pub build_error : GetInfo → Option PlatformError
  pub request_size : List (List ℕ) → ℕ
  pub extensions_fail : AuthTokenData → Option PlatformError
  pub sha256 : String → List ℕ

abbrev pub is_nil : List (List ℕ) → Bool
is_nil [] = true
is_nil (id ∷ ids) = false

-- `largeBlob` writes are for one credential.
check_large_blob : AssertionOp → Result UvError (Unit {0})
check_large_blob op =
    if op.writes_large_blob && not (length op.allow_list == 1)
    then err (platform not_supported)
    else ok tt

-- Nothing of the allow list is on the device: the user still touches it, in a dummy command.
absent : Ceremony (List (List ℕ))
absent = do
  note presence_required
  reply ← attempt (send_command dummy_make_credential)
  raise (ctap no_credentials)

-- The rest of the allow list, after its oversized ids are gone.
usable : Environment → AssertionOp → List (List ℕ) → Ceremony (List (List ℕ))
unfolding absent
usable env op allow =
    if env.supports_preflight
    then (do
      known ← preflight allow op.rp_id
      (if is_nil known && not (is_nil op.allow_list) then absent else pure known))
    else if is_nil allow && not (is_nil op.allow_list)
    then raise (ctap no_credentials)
    else pure allow

-- The request with the authentication that user verification wrote into it.
abbrev pub assertion_request : AssertionOp → List (List ℕ) → World → AssertionRequest
assertion_request op allow w = record {
  relying_party_id = op.rp_id;
  allow = allow;
  require_user_presence = true;
  pin_auth = w.request.uv_auth;
}

abbrev pub assertion_command : Environment → AssertionOp → List (List ℕ) → Command
assertion_command env op allow = record {
  requirement = op.user_verification_requirement;
  notes_rejection = false;
  extension_error = env.extensions_fail;
  call = λ w. get_assertion (assertion_request op allow w);
}

-- `validate_rp_id_hash`.
unfoldable pub validate_rp_id_hash : List ℕ → AssertionReply → Result UvError (Unit {0})
validate_rp_id_hash expected reply =
    if bytes_eq reply.rp_id_hash expected then ok tt else err (platform invalid_device_response)

abbrev pub or_else : Option ℕ → ℕ → ℕ
or_else none other = other
or_else (some n) other = n

-- The number of responses that are asked for: what the device says, within its own limit.
abbrev pub assertion_count : GetInfo → AssertionReply → ℕ
assertion_count info response =
    min (or_else response.credentials_count 1) (or_else info.max_credential_count 255)

unfoldable pub next_assertions : List ℕ → ℕ → Ceremony (List AssertionReply)
next_assertions expected zero = pure []
next_assertions expected (suc n) = do
  reply ← send_command get_next_assertion
  lift (validate_rp_id_hash expected reply)
  replies ← next_assertions expected n
  pure (reply ∷ replies)

unfoldable pub collect_assertions :
    List ℕ → GetInfo → AssertionReply → Ceremony (List AssertionReply)
collect_assertions expected info response = do
  lift (validate_rp_id_hash expected response)
  replies ← next_assertions expected (assertion_count info response - 1)
  pure (response ∷ replies)

module _ (c : Crypto) where
  unfoldable pub get_assertion_fido2 : Environment → AssertionOp → Ceremony (List AssertionReply)
  unfolding check_large_blob usable outcome_of
  get_assertion_fido2 env op = do
    lift (check_large_blob op)
    info ← ctap2_get_info
    lift (outcome_of (env.build_error info))
    allow ← usable env op (filter_oversized_credentials info op.allow_list)
    lift (of_platform (enforce_get_assertion_limits allow (env.request_size allow) info))
    response ← command_loop c 3 (assertion_command env op allow)
    collect_assertions (env.sha256 op.rp_id) info response
