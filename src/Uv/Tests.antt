-- ===== src/Uv/Tests.antt =====
-- Concrete runs of user verification, and the theorems at them.
use libwebauthn.Prelude.{
  ℕ, ◌≡◌, ◌⊎◌, ◌≢◌, refl, Bool, true, false, Option, none, some, List, [], ◌∷◌, String, Result, ok,
  err, ◌↔◌, if◌then◌else◌, length, replicate,
}
use libwebauthn.Uv.Errors.{UvError, ctap, uv_blocked, out_of_rounds, no_uv_available}
use libwebauthn.Uv.Crypto.{Crypto}
use libwebauthn.Uv.Info.{
  GetInfo, get_token_using_uv, get_token_using_pin, only_for_shared_secret, uv_operation,
  option_enabled, option_exists, option_of, is_uv_protected, can_establish_shared_secret,
}
use libwebauthn.Uv.Info.Operation.{uv_operation-calls_for, calls_for}
use libwebauthn.Uv.Token.{
  two, AuthTokenData, AuthTokenPermission, get_uv_auth_token, token_len_valid, role_intersects,
}
use libwebauthn.Uv.Token.Store.{get_uv_auth_token-Serves, Serves}
use libwebauthn.Uv.World.{
  World, UvRequest, PinResponse, ◌>>=◌, ◌>>◌, ctap2_get_info, ctap2_client_pin, store_auth_data,
  calculate_and_set_uv_auth, ensure_uv_set,
}
use libwebauthn.Uv.Pin.{select_uv_proto, obtain_shared_secret}
use libwebauthn.Uv.World.Triple.{Outcome}
use libwebauthn.Uv.Round.{
  required, uv_loop, uv_round, choose_operation, enforce_no_mc_ga_with_client_pin, newly_calculated,
  shared_secret_only,
}
use libwebauthn.Uv.Round.Policy.{
  is_forbidden, enforce_no_mc_ga_with_client_pin-ok, enforce_no_mc_ga_with_client_pin-uv_operation,
}
use libwebauthn.Uv.Flow.{
  ensure_protected, package_results, user_verification, user_verification_helper,
}
use libwebauthn.Uv.Flow.Reflects.{Reflects}
use libwebauthn.Uv.Flow.Rounds.{user_verification-Told}
use libwebauthn.Uv.Flow.Required.{user_verification_helper-blocked}
use libwebauthn.Uv.Flow.Verified.{user_verification-Reflects}

-- A stand-in for the cryptography: nothing is hidden.
abbrev pub plain : Crypto
plain = record {
  encapsulate = λ proto key. ok (key, 7 ∷ key);
  encrypt = λ proto secret bytes. ok bytes;
  decrypt = λ proto secret bytes. ok bytes;
  authenticate = λ proto secret bytes. ok (1 ∷ bytes);
  pin_hash = λ pin. pin;
  decrypt_identifier = λ token bytes. ok bytes;
  normalize = λ pin. pin;
  count_chars = length;
  listed = λ store. store;
}

abbrev pub with_options : List (String × Bool) → GetInfo
with_options options = record {
  versions = "FIDO_2_1" ∷ [];
  aaguid = replicate 16 0;
  options = some options;
  pin_auth_protos = some (2 ∷ 1 ∷ []);
  force_pin_change = none;
  min_pin_length = none;
  enc_identifier = none;
  max_msg_size = none;
  max_credential_count = none;
  max_credential_id_length = none;
}

-- Built-in verification with tokens, and no PIN set yet.
abbrev pub fingerprint_key : GetInfo
fingerprint_key = with_options (("uv", true) ∷ ("clientPin", false) ∷ ("pinUvAuthToken", true) ∷ [])

-- A PIN that must not stand for making credentials.
abbrev strict_pin_key : GetInfo
strict_pin_key =
    with_options (
      ("clientPin", true)
      ∷ ("pinUvAuthToken", true)
      ∷ ("noMcGaPermissionsWithClientPin", true)
      ∷ [])

abbrev pub reply_with : Option (List ℕ) → Option (List ℕ) → PinResponse
reply_with key token = record {
  key_agreement = key;
  pin_uv_auth_token = token;
  pin_retries = none;
  uv_retries = none;
}

abbrev pub make_credential_request : UvRequest
make_credential_request = record {
  permissions = 3;
  permissions_rpid = some "example.org";
  can_use_uv = λ info. true;
  needs_shared_secret = λ info. false;
  needs_pin_uv_auth_token = λ info. false;
  persistent_use = λ info has_store. false;
  auth_error = λ proto token. none;
  persistent_token_rejected = false;
  preview_of = none;
  wants_persistent_token = false;
  uv_set = false;
  uv_auth = none;
}

abbrev pub talking_to : GetInfo → List (Result UvError PinResponse) → World
talking_to info replies = record {
  infos = ok info ∷ [];
  pins = replies;
  entries = [];
  commands = [];
  fresh_id = "fresh";
  auth_data = none;
  store = none;
  request = make_credential_request;
  log = [];
}

abbrev good_finger : World
good_finger =
    talking_to fingerprint_key
      (ok (reply_with (some (1 ∷ 2 ∷ [])) none) ∷ ok (reply_with none (some (replicate 32 9))) ∷ [])

good_finger_run :
    (user_verification plain required good_finger).0 ≡ ok (newly_calculated get_token_using_uv)
unfolding user_verification user_verification_helper ensure_protected ◌>>=◌ ◌>>◌ ctap2_get_info
    ctap2_client_pin select_uv_proto get_uv_auth_token is_uv_protected option_enabled option_of
    option_exists uv_loop uv_round choose_operation uv_operation enforce_no_mc_ga_with_client_pin
    obtain_shared_secret can_establish_shared_secret package_results token_len_valid store_auth_data
    calculate_and_set_uv_auth ensure_uv_set
good_finger_run = refl

uv_operation-calls_for_example :
    uv_operation strict_pin_key false ≡ some get_token_using_pin
    ↔ calls_for get_token_using_pin strict_pin_key false ≡ true
uv_operation-calls_for_example = uv_operation-calls_for strict_pin_key false get_token_using_pin

strict_pin_operation : uv_operation strict_pin_key false ≡ some get_token_using_pin
unfolding uv_operation option_enabled option_of option_exists
strict_pin_operation = refl

enforce_no_mc_ga_with_client_pin-uv_operation_example :
    enforce_no_mc_ga_with_client_pin strict_pin_key get_token_using_pin 1 false ≡ (
      if is_forbidden strict_pin_key 1 get_token_using_pin
      then err no_uv_available
      else ok get_token_using_pin)
enforce_no_mc_ga_with_client_pin-uv_operation_example =
    enforce_no_mc_ga_with_client_pin-uv_operation strict_pin_key 1 false get_token_using_pin
      strict_pin_operation

-- Credential management alone (0x04) may use the PIN.
strict_pin_passes :
    enforce_no_mc_ga_with_client_pin strict_pin_key get_token_using_pin 4 false
    ≡ ok get_token_using_pin
unfolding enforce_no_mc_ga_with_client_pin option_enabled option_of role_intersects
strict_pin_passes = refl

enforce_no_mc_ga_with_client_pin-ok_example :
    (is_forbidden strict_pin_key 4 get_token_using_pin ≡ false)
    × ((get_token_using_pin ≡ get_token_using_pin)
        ⊎ (get_token_using_pin ≡ get_token_using_uv)
          × (option_enabled strict_pin_key "uv" ≡ true)
          × (false ≡ false))
enforce_no_mc_ga_with_client_pin-ok_example =
    enforce_no_mc_ga_with_client_pin-ok strict_pin_key 4 false get_token_using_pin
      get_token_using_pin strict_pin_passes

abbrev asked_for : AuthTokenPermission
asked_for = record { pin_uv_auth_protocol = two; role = 2; rpid = some "example.org" }

abbrev granted : AuthTokenPermission
granted = record { pin_uv_auth_protocol = two; role = 3; rpid = some "example.org" }

abbrev kept_data : AuthTokenData
kept_data = record {
  protocol_version = two;
  key_agreement = [];
  shared_secret = [];
  uv_operation = get_token_using_uv;
  permission = some granted;
  pin_uv_auth_token = some (replicate 32 9);
}

get_uv_auth_token-Serves_example :
    get_uv_auth_token (some kept_data) asked_for ≡ some (replicate 32 9) ↔ (
      (p : AuthTokenPermission) × (some granted ≡ some p)
      × Serves p asked_for
      × (some (replicate {A = ℕ} 32 9) ≡ some (replicate 32 9)))
get_uv_auth_token-Serves_example = get_uv_auth_token-Serves kept_data asked_for (replicate 32 9)

user_verification-Reflects_example :
    Outcome (Reflects required) (user_verification plain required good_finger)
user_verification-Reflects_example = user_verification-Reflects plain required good_finger

user_verification-Told_example :
    (user_verification plain required good_finger).0 ≢ err out_of_rounds
user_verification-Told_example =
    user_verification-Told plain required good_finger ((λ e. cc), tt) ((λ e. cc), ((λ e. cc), tt))

abbrev key_reply : PinResponse
key_reply = reply_with (some (1 ∷ 2 ∷ [])) none

abbrev blocked_finger : World
blocked_finger =
    talking_to fingerprint_key (ok key_reply ∷ err (ctap uv_blocked) ∷ ok key_reply ∷ [])

fingerprint_options :
    (is_uv_protected fingerprint_key ≡ true)
    × (uv_operation fingerprint_key false ≡ some get_token_using_uv)
    × (uv_operation fingerprint_key true ≡ some only_for_shared_secret)
    × (select_uv_proto fingerprint_key ≡ some two)
unfolding is_uv_protected uv_operation select_uv_proto option_enabled option_exists option_of
fingerprint_options = (refl, refl, refl, refl)

user_verification_helper-blocked_example :
    (user_verification_helper plain required fingerprint_key blocked_finger).0
    ≡ ok shared_secret_only
user_verification_helper-blocked_example =
    user_verification_helper-blocked plain fingerprint_key two (1 ∷ 2 ∷ []) (1 ∷ 2 ∷ [])
      (7 ∷ 1 ∷ 2 ∷ []) key_reply fingerprint_options.3 refl refl fingerprint_options.0
      fingerprint_options.1 fingerprint_options.2 blocked_finger [] refl refl
