-- ===== src/Uv/Round.antt =====
-- webauthn/pin_uv_auth_token.rs: the loop of `user_verification_helper`, in which an operation is
-- chosen and a token requested, until a reply ends it.
pub mod Steps
pub mod Exit
pub mod Policy
pub mod Rounds
pub mod Blocked
use libwebauthn.Prelude.{
  ℕ, zero, suc, ◌+◌, Bool, true, false, not, ◌&&◌, ◌||◌, Option, none, some, List, ◌==◌,
  if◌then◌else◌, String, Result, ok, err,
}
use libwebauthn.Uv.Errors.{
  UvError, CtapError, PlatformError, PinRequestReason, ctap, platform, out_of_rounds, other,
  uv_blocked, uv_invalid, pin_required, no_uv_available, fallback_from_uv, relying_party_request,
  authenticator_policy, pin_change_required,
}
use libwebauthn.Uv.Crypto.{Crypto}
use libwebauthn.Uv.Info.{
  GetInfo, UvOperation, get_token_using_uv, get_token_using_pin, UvOperation.get_pin_token,
  only_for_shared_secret, legacy_uv, is_true, option_enabled, uv_operation,
}
use libwebauthn.Uv.Token.{PinUvAuthProtocol, role_intersects, make_credential, get_assertion}
use libwebauthn.Uv.World.{
  Ceremony, PinRequest, PinResponse, World, UvRequest, pure, raise, lift, attempt, note,
  of_platform, ◌>>=◌, ◌>>◌, ctap2_client_pin, ctap2_get_info, ensure_uv_set, get_uv_retries,
  get_pin_token_with_perm, get_uv_token_with_perm, uv_retry, presence_required,
}
use libwebauthn.Uv.Pin.{select_uv_proto, obtain_pin, obtain_shared_secret, try_to_set_pin}

pub data UserVerificationRequirement : Type 0 where
  required discouraged preferred : UserVerificationRequirement

abbrev pub is_discouraged : UserVerificationRequirement → Bool
is_discouraged discouraged = true
is_discouraged _ = false

abbrev pub is_preferred : UserVerificationRequirement → Bool
is_preferred discouraged = false
is_preferred _ = true

abbrev pub is_required : UserVerificationRequirement → Bool
is_required required = true
is_required _ = false

abbrev pub is_client_pin : UvOperation → Bool
is_client_pin get_token_using_pin = true
is_client_pin get_pin_token = true
is_client_pin _ = false

unfoldable pub enforce_no_mc_ga_with_client_pin :
    GetInfo → UvOperation → ℕ → Bool → Result PlatformError UvOperation
enforce_no_mc_ga_with_client_pin info operation permissions uv_unavailable =
    if not (is_client_pin operation)
      || not (role_intersects permissions (make_credential + get_assertion))
      || not (option_enabled info "noMcGaPermissionsWithClientPin")
    then ok operation
    else if option_enabled info "uv" && not uv_unavailable
    then ok get_token_using_uv
    else err no_uv_available

-- How the loop ends: the whole helper returns early, or a secret and perhaps a token reply are there.
pub data UsedToken : Type 0 where
  from_ephemeral shared_secret_only no_token used_legacy_uv : UsedToken
  from_persistent : String → UsedToken
  newly_calculated : UvOperation → UsedToken

pub record Selected : Type 0 where
  pub proto : PinUvAuthProtocol
  pub shared_secret : List ℕ
  pub public_key : List ℕ
  pub operation : UvOperation
  pub token_response : Option PinResponse
  pub info : GetInfo

-- What a round has before the reply to its token request.
abbrev pub selection : PinUvAuthProtocol → List ℕ → List ℕ → UvOperation → GetInfo → Selected
selection proto key secret operation info = record {
  proto = proto;
  shared_secret = secret;
  public_key = key;
  operation = operation;
  token_response = none;
  info = info;
}

pub data LoopExit : Type 0 where
  early : UsedToken → LoopExit
  selected : Selected → LoopExit

-- The variables of the helper that the loop reads and does not change.
pub record Needs : Type 0 where
  pub requirement : UserVerificationRequirement
  pub needs_shared_secret : Bool
  pub can_establish_shared_secret : Bool
  pub skip_uv : Bool

blocked_error : Bool → UvError
blocked_error true = ctap uv_blocked
blocked_error false = platform no_uv_available

-- The operation for this round, or an early return: the first part of the loop's body.
pub data Choice : Type 0 where
  give_up : UsedToken → Choice
  go_on : UvOperation → Choice

downgrade : UvRequest → Needs → GetInfo → UvOperation → UvOperation
downgrade request needs info operation =
    if is_discouraged needs.requirement
      && needs.needs_shared_secret
      && not (request.needs_pin_uv_auth_token info)
    then only_for_shared_secret
    else operation

pub prepare_operation : Needs → GetInfo → UvOperation → Ceremony Choice
unfolding downgrade
prepare_operation needs info legacy_uv w =
    (ensure_uv_set
        >> pure (
            if not needs.needs_shared_secret || not needs.can_establish_shared_secret
            then give_up used_legacy_uv
            else go_on legacy_uv))
      w
prepare_operation needs info operation w =
    (ok (go_on (downgrade w.request needs info operation)), w)

unfoldable pub choose_operation : Needs → Bool → GetInfo → Ceremony Choice
unfolding blocked_error prepare_operation
choose_operation needs blocked info = elim (uv_operation info (blocked || needs.skip_uv)) [
  | none ↦ raise (blocked_error blocked)
  | some operation ↦ prepare_operation needs info operation
]

pub enforce : Needs → Bool → GetInfo → UvOperation → Ceremony UvOperation
enforce needs blocked info operation w = (
  of_platform (
      enforce_no_mc_ga_with_client_pin info operation w.request.permissions
        (blocked || needs.skip_uv)),
  w,
)

module _ (c : Crypto) where
  pin_reason : Needs → Bool → PinRequestReason
  pin_reason needs true = fallback_from_uv
  pin_reason needs false =
      if is_preferred needs.requirement then relying_party_request else authenticator_policy

  -- The PIN, for an operation that includes one.
  pub pin_for :
      Needs → Bool → GetInfo → PinUvAuthProtocol → UvOperation → Ceremony (Option (List ℕ))
  unfolding pin_reason
  pin_for needs blocked info proto operation =
      if is_client_pin operation
      then (do pin ← obtain_pin c info proto (pin_reason needs blocked); pure (some pin))
      else pure none

  pin_hash_enc : PinUvAuthProtocol → List ℕ → Option (List ℕ) → Result UvError (List ℕ)
  pin_hash_enc proto secret none = err (ctap pin_required)
  pin_hash_enc proto secret (some pin) = of_platform (c.encrypt proto secret (c.pin_hash pin))

  -- The request for a token; `none` for the operations that take none.
  pub token_request :
      PinUvAuthProtocol
      → List ℕ
      → List ℕ
      → Option (List ℕ)
      → UvOperation
      → Ceremony (Option PinRequest)
  unfolding pin_hash_enc
  token_request proto key secret pin get_pin_token = do
    hash ← lift (pin_hash_enc proto secret pin)
    pure (some (PinRequest.get_pin_token proto key hash))
  token_request proto key secret pin get_token_using_pin = do
    hash ← lift (pin_hash_enc proto secret pin)
    λ w. (
      ok (
          some (
            get_pin_token_with_perm proto key hash w.request.permissions
              w.request.permissions_rpid)),
      w,
    )
  token_request proto key secret pin get_token_using_uv = do
    note presence_required
    λ w. (
      ok (some (get_uv_token_with_perm proto key w.request.permissions w.request.permissions_rpid)),
      w,
    )
  token_request proto key secret pin _ = pure none

  uv_retries_of : Result UvError PinResponse → Option ℕ
  uv_retries_of (ok response) = response.uv_retries
  uv_retries_of (err e) = none

  is_zero : Option ℕ → Bool
  is_zero none = false
  is_zero (some n) = n == 0

  -- The reply to the token request: the end of the loop, an error, or another round with UV blocked.
  pub after_reply : Ceremony LoopExit → Selected → Result UvError PinResponse → Ceremony LoopExit
  unfolding uv_retries_of is_zero
  after_reply again_blocked s (ok response) =
      pure (selected (record s { token_response = some response }))
  after_reply again_blocked s (err (ctap uv_blocked)) = again_blocked
  after_reply again_blocked s (err (ctap uv_invalid)) = do
    reply ← attempt (ctap2_client_pin get_uv_retries)
    note (uv_retry (uv_retries_of reply))
    if is_zero (uv_retries_of reply) then again_blocked else raise (ctap uv_invalid)
  after_reply again_blocked s (err e) = raise e

  -- The rest of the body for an operation that is settled.
  pub run_operation :
      (Bool → GetInfo → Ceremony LoopExit)
      → Needs
      → Bool
      → GetInfo
      → UvOperation
      → Ceremony LoopExit
  unfolding pin_for token_request after_reply
  run_operation again needs blocked info operation = elim (select_uv_proto info) [
    | none ↦ raise (ctap other)
    | some proto ↦ do
      pin ← pin_for needs blocked info proto operation
      (key, secret) ← obtain_shared_secret c proto
      request ← token_request proto key secret pin operation
      let s = selection proto key secret operation info
      elim request [
        | none ↦ pure (selected s)
        | some r ↦ do reply ← attempt (ctap2_client_pin r); after_reply (again true info) s reply
      ]
  ]

  -- The rest of a round for the operation that is chosen; `again` is `continue`, with the values of
  -- `uv_blocked` and getInfo that it leaves.
  pub follow :
      (Bool → GetInfo → Ceremony LoopExit) → Needs → Bool → GetInfo → Choice → Ceremony LoopExit
  unfolding run_operation enforce
  follow again needs blocked info (give_up used) = pure (early used)
  follow again needs blocked info (go_on chosen) = do
    operation ← enforce needs blocked info chosen
    (if is_true info.force_pin_change && is_client_pin operation
        then (do
          try_to_set_pin c info pin_change_required
          info' ← ctap2_get_info
          again blocked info')
        else run_operation again needs blocked info operation)

  unfoldable pub uv_round :
      (Bool → GetInfo → Ceremony LoopExit) → Needs → Bool → GetInfo → Ceremony LoopExit
  unfolding follow
  uv_round again needs blocked info = do
    choice ← choose_operation needs blocked info
    follow again needs blocked info choice

  -- Every round that goes on has used up a reply of the device, or the loop ends in an error.
  unfoldable pub uv_loop : ℕ → Needs → Bool → GetInfo → Ceremony LoopExit
  uv_loop zero needs blocked info = raise out_of_rounds
  uv_loop (suc fuel) needs blocked info = uv_round (uv_loop fuel needs) needs blocked info
