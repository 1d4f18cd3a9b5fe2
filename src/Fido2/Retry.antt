-- ===== src/Fido2/Retry.antt =====
-- webauthn.rs: the loop around a command that takes user verification, and the macro `handle_errors`
-- that says when it goes round again.
pub mod State
pub mod Rounds
use libwebauthn.Prelude.{
  ℕ, zero, suc, Bool, true, false, not, Option, none, some, List, if◌then◌else◌, String, Result, ok,
  err,
}
use libwebauthn.Uv.Errors.{
  UvError, PlatformError, ctap, platform, pin_auth_invalid, uv_invalid, out_of_rounds,
}
use libwebauthn.Uv.Crypto.{Crypto}
use libwebauthn.Uv.Info.{UvOperation, get_token_using_uv}
use libwebauthn.Uv.Token.{AuthTokenData}
use libwebauthn.Uv.Records.{TokenStore}
use libwebauthn.Uv.Persistent.{delete}
use libwebauthn.Uv.World.{
  World, Ceremony, Call, PinResponse, AssertionReply, pure, raise, lift, attempt, note, ◌>>=◌, ◌>>◌,
  ctap2_client_pin, send_command, get_uv_retries, uv_retry, presence_required,
}
use libwebauthn.Uv.Round.{
  UserVerificationRequirement, UsedToken, from_ephemeral, from_persistent, newly_calculated,
}
use libwebauthn.Uv.Flow.{user_verification}

-- `clear_uv_auth_token_store`.
unfoldable pub clear_uv_auth_token_store : Ceremony (Unit {0})
clear_uv_auth_token_store w = (ok tt, record w { auth_data = none })

abbrev pub deleted_from : String → Option TokenStore → Option TokenStore
deleted_from id none = none
deleted_from id (some store) = some (delete id store)

-- The record of a rejected token is deleted, where the channel has a store.
unfoldable pub evict : String → Ceremony (Unit {0})
evict id w = (ok tt, record w { store = deleted_from id w.store })

-- `note_persistent_token_rejected`, for the callers that pass their request to the macro.
unfoldable pub note_rejected : Bool → Ceremony (Unit {0})
note_rejected notes w = (
  ok tt,
  record w {
    request = if notes then record w.request { persistent_token_rejected = true } else w.request;
  },
)

abbrev pub retries_left : Result UvError PinResponse → Option ℕ
retries_left (ok response) = response.uv_retries
retries_left (err e) = none

retry_invalid : Bool → Ceremony AssertionReply → UsedToken → Ceremony AssertionReply
retry_invalid notes again from_ephemeral = do clear_uv_auth_token_store; again
retry_invalid notes again (from_persistent id) = do evict id; note_rejected notes; again
retry_invalid notes again used = raise (ctap pin_auth_invalid)

-- `handle_errors`; `again` is `continue`.
pub handle_errors :
    Bool
    → Ceremony AssertionReply
    → UsedToken
    → Result UvError AssertionReply
    → Ceremony AssertionReply
unfolding retry_invalid
handle_errors notes again used (err (ctap pin_auth_invalid)) = retry_invalid notes again used
handle_errors notes again used (err (ctap uv_invalid)) = do
  reply ← attempt (ctap2_client_pin get_uv_retries)
  note (uv_retry (retries_left reply))
  raise (ctap uv_invalid)
handle_errors notes again used reply = lift reply

unfoldable pub outcome_of : Option PlatformError → Result UvError (Unit {0})
outcome_of none = ok tt
outcome_of (some e) = err (platform e)

-- The request's extensions are encrypted for the shared secret, which may fail: the parameter says
-- how, and that of a request without such extensions never fails.
check_extensions :
    (AuthTokenData → Option PlatformError) → Option AuthTokenData → Result UvError (Unit {0})
unfolding outcome_of
check_extensions extension_error none = ok tt
check_extensions extension_error (some auth_data) = outcome_of (extension_error auth_data)

pub calculate_extensions : (AuthTokenData → Option PlatformError) → Ceremony (Unit {0})
unfolding check_extensions
calculate_extensions extension_error w = (check_extensions extension_error w.auth_data, w)

-- The user was asked for presence already if the built-in verification gave the token.
pub announce : UsedToken → Ceremony (Unit {0})
announce (newly_calculated get_token_using_uv) = pure tt
announce used = note presence_required

-- What does not change from round to round.
pub record Command : Type 0 where
  pub requirement : UserVerificationRequirement
  pub notes_rejection : Bool
  pub extension_error : AuthTokenData → Option PlatformError
  pub call : World → Call

-- The command itself, with the authentication that the request holds by then.
pub send : Command → Ceremony (Result UvError AssertionReply)
send m w = attempt (send_command (m.call w)) w

module _ (c : Crypto) where
  pub command_round : Command → Ceremony AssertionReply → Ceremony AssertionReply
  unfolding send calculate_extensions announce handle_errors
  command_round m again = do
    used ← user_verification c m.requirement
    calculate_extensions m.extension_error
    announce used
    reply ← send m
    handle_errors m.notes_rejection again used reply

  unfoldable pub command_loop : ℕ → Command → Ceremony AssertionReply
  unfolding command_round
  command_loop zero m = raise out_of_rounds
  command_loop (suc fuel) m = command_round m (command_loop fuel m)
