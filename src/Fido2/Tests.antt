-- ===== src/Fido2/Tests.antt =====
-- Concrete runs of commands, and the theorems at them.
use libwebauthn.Prelude.{
  ℕ, ◌≡◌, ◌≢◌, refl, inr, Bool, true, false, Option, none, some, List, [], ◌∷◌, ◌++◌, length,
  replicate, All, ◌≤◌, ◌<◌, ◌+◌, ◌-◌, suc, String, str_eq, ok, err, bytes_eq,
}
use libwebauthn.Uv.Errors.{device_error, pin_auth_invalid, no_credentials, out_of_rounds}
use libwebauthn.Uv.Info.{
  GetInfo, get_token_using_uv, uv_operation, option_enabled, option_exists, option_of,
  is_uv_protected, can_establish_shared_secret,
}
use libwebauthn.Uv.Token.{
  two, AuthTokenData, get_uv_auth_token, contains, role_contains, token_len_valid,
}
use libwebauthn.Uv.World.{
  World, AssertionReply, ◌>>=◌, ◌>>◌, ctap2_get_info, ctap2_client_pin, store_auth_data,
  calculate_and_set_uv_auth, ensure_uv_set, send_command,
}
use libwebauthn.Uv.World.Triple.{Outcome}
use libwebauthn.Uv.Pin.{select_uv_proto, obtain_shared_secret}
use libwebauthn.Uv.Round.{
  required, uv_loop, uv_round, choose_operation, enforce_no_mc_ga_with_client_pin,
}
use libwebauthn.Uv.Flow.{
  ensure_protected, package_results, user_verification, user_verification_helper,
}
use libwebauthn.Uv.Tests.{plain, fingerprint_key, reply_with, talking_to}
use libwebauthn.Fido2.Limits.{
  filter_oversized_credentials, enforce_get_assertion_limits, ensure_credential_count,
  ensure_msg_size, max_msg_size_of,
}
use libwebauthn.Fido2.Preflight.{preflight_one, preflight_with_appid, preflight}
use libwebauthn.Fido2.Preflight.Known.{transcript}
use libwebauthn.Fido2.Retry.{command_loop, clear_uv_auth_token_store}
use libwebauthn.Fido2.Retry.Rounds.{command_loop-Told}
use libwebauthn.Fido2.Assertion.{
  AssertionOp, Environment, assertion_command, validate_rp_id_hash, next_assertions, or_else,
  assertion_count, collect_assertions, get_assertion_fido2,
}
use libwebauthn.Fido2.Assertion.Genuine.{IsFor, get_assertion_fido2-IsFor}
use libwebauthn.Fido2.Assertion.Bounded.{Asked, collect_assertions-bounded}

abbrev hash : List ℕ
hash = 4 ∷ 2 ∷ []

abbrev response : Option ℕ → AssertionReply
response count = record {
  rp_id_hash = hash;
  credential_id = some (9 ∷ []);
  attested_credential = none;
  credentials_count = count;
}

abbrev env : Environment
env = record {
  supports_preflight = true;
  build_error = λ info. none;
  request_size = λ allow. 100;
  extensions_fail = λ auth_data. none;
  sha256 = λ rp_id. hash;
}

abbrev op : AssertionOp
op = record {
  allow_list = (8 ∷ []) ∷ (9 ∷ []) ∷ [];
  user_verification_requirement = required;
  rp_id = "example.org";
  writes_large_blob = false;
}

-- A channel that holds a token which the device does not take any more.
abbrev stale_token : AuthTokenData
stale_token = record {
  protocol_version = two;
  key_agreement = 1 ∷ [];
  shared_secret = 1 ∷ [];
  uv_operation = get_token_using_uv;
  permission = some (record { pin_uv_auth_protocol = two; role = 3; rpid = some "example.org" });
  pin_uv_auth_token = some (5 ∷ []);
}

abbrev finger : World
finger =
    talking_to fingerprint_key
      (ok (reply_with (some (1 ∷ 2 ∷ [])) none) ∷ ok (reply_with none (some (replicate 32 9))) ∷ [])

abbrev stale : World
stale = record finger {
  infos = ok fingerprint_key ∷ ok fingerprint_key ∷ [];
  auth_data = some stale_token;
  commands = err (device_error pin_auth_invalid) ∷ ok (response (some 1)) ∷ [];
}

-- The stale token is dropped, and a new one is taken.
recovers : (command_loop plain 3 (assertion_command env op []) stale).0 ≡ ok (response (some 1))
unfolding command_loop clear_uv_auth_token_store user_verification user_verification_helper
    ensure_protected ◌>>=◌ ◌>>◌ ctap2_get_info ctap2_client_pin select_uv_proto get_uv_auth_token
    contains role_contains is_uv_protected option_enabled option_of option_exists uv_loop uv_round
    choose_operation uv_operation enforce_no_mc_ga_with_client_pin obtain_shared_secret
    can_establish_shared_secret package_results token_len_valid store_auth_data
    calculate_and_set_uv_auth ensure_uv_set send_command
recovers = refl

command_loop-Told_example :
    (command_loop plain 3 (assertion_command env op []) stale).0 ≢ err out_of_rounds
command_loop-Told_example =
    command_loop-Told plain (assertion_command env op []) stale ((λ e. cc), ((λ e. cc), tt))
      ((λ e. cc), ((λ e. cc), tt)) (inr (λ info has_store. refl))

-- The device has the second credential of the list, under the AppID only.
abbrev under_appid_only : String → List ℕ → Bool
under_appid_only rp credential = elim (str_eq rp "https://example.org/appid") [
  | true ↦ bytes_eq credential (9 ∷ [])
  | false ↦ false
]

abbrev asked : World
asked = record finger {
  commands =
      transcript under_appid_only "example.org" (some "https://example.org/appid") op.allow_list
      ++ [];
}

-- Preflight finds the second credential, and the assertion has two responses.
abbrev two_responses : World
two_responses = record finger {
  infos = ok fingerprint_key ∷ ok fingerprint_key ∷ [];
  commands =
      err (device_error no_credentials)
      ∷ ok (response none)
      ∷ ok (response (some 2))
      ∷ ok (response none)
      ∷ [];
}

asserts :
    (get_assertion_fido2 plain env op two_responses).0 ≡ ok (response (some 2) ∷ response none ∷ [])
unfolding get_assertion_fido2 filter_oversized_credentials enforce_get_assertion_limits
    ensure_credential_count ensure_msg_size max_msg_size_of preflight preflight_with_appid
    preflight_one validate_rp_id_hash next_assertions collect_assertions command_loop
    clear_uv_auth_token_store user_verification user_verification_helper ensure_protected ◌>>=◌ ◌>>◌
    ctap2_get_info ctap2_client_pin select_uv_proto get_uv_auth_token is_uv_protected option_enabled
    option_of option_exists uv_loop uv_round choose_operation uv_operation
    enforce_no_mc_ga_with_client_pin obtain_shared_secret can_establish_shared_secret
    package_results token_len_valid store_auth_data calculate_and_set_uv_auth ensure_uv_set
    send_command
asserts = refl

get_assertion_fido2-IsFor_example :
    Outcome
      (λ replies w'. All (IsFor (env.sha256 op.rp_id)) replies × (0 < length replies))
      (get_assertion_fido2 plain env op two_responses)
get_assertion_fido2-IsFor_example = get_assertion_fido2-IsFor plain env op two_responses

-- A device that claims a million credentials, and says in getInfo that it has room for three.
abbrev small_key : GetInfo
small_key = record fingerprint_key { max_credential_count = some 3 }

abbrev talkative : World
talkative = record finger {
  commands = ok (response none) ∷ ok (response none) ∷ ok (response none) ∷ [];
}

-- Two further responses are asked for, and the third reply of the device stays.
three_responses :
    ((collect_assertions hash small_key (response (some 1000000)) talkative).0
      ≡ ok (response (some 1000000) ∷ response none ∷ response none ∷ []))
    × ((collect_assertions hash small_key (response (some 1000000)) talkative).1.commands
        ≡ ok (response none) ∷ [])
unfolding collect_assertions next_assertions validate_rp_id_hash ◌>>=◌ ◌>>◌ send_command
three_responses = (refl, refl)

collect_assertions-bounded_example :
    (length (collect_assertions hash small_key (response (some 1000000)) talkative).1.log
      ≤ length talkative.log + (or_else small_key.max_credential_count 255 - 1))
    × Outcome
        (λ replies w'.
          (length replies ≤ suc (or_else small_key.max_credential_count 255 - 1))
          × (length replies ≡ suc (assertion_count small_key (response (some 1000000)) - 1))
          × Asked talkative.log (assertion_count small_key (response (some 1000000)) - 1) w')
        (collect_assertions hash small_key (response (some 1000000)) talkative)
collect_assertions-bounded_example =
    collect_assertions-bounded hash small_key (response (some 1000000)) talkative
