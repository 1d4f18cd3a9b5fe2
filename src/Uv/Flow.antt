-- ===== src/Uv/Flow.antt =====
-- webauthn/pin_uv_auth_token.rs: `user_verification`.
pub mod Reflects
pub mod Reused
pub mod Fresh
pub mod Verified
pub mod Rounds
pub mod Required
use libwebauthn.Prelude.{
  ℕ, suc, ◌+◌, Bool, true, false, not, ◌&&◌, ◌||◌, Option, none, some, List, if◌then◌else◌, length,
  is_some, String, Result, ok, err,
}
use libwebauthn.Uv.Errors.{
  UvError, ctap, platform, other, no_uv_available, pin_not_set, PinNotSetReason,
}
use libwebauthn.Uv.Crypto.{Crypto}
use libwebauthn.Uv.Info.{
  GetInfo, UvOperation, legacy_uv, only_for_shared_secret, is_uv_protected,
  can_establish_shared_secret,
}
use libwebauthn.Uv.Token.{
  PinUvAuthProtocol, AuthTokenPermission, AuthTokenData, get_uv_auth_token, token_len_valid,
}
use libwebauthn.Uv.Records.{TokenStore, TokenRecord}
use libwebauthn.Uv.Persistent.{recognize_authenticator, store_minted_token}
use libwebauthn.Uv.World.{
  Ceremony, PinResponse, World, UvRequest, pure, raise, lift, world, of_platform, ◌>>=◌, ◌>>◌,
  ctap2_get_info, store_auth_data, calculate_and_set_uv_auth,
}
use libwebauthn.Uv.Pin.{select_uv_proto, try_to_set_pin}
use libwebauthn.Uv.Round.{
  UserVerificationRequirement, is_discouraged, is_preferred, is_required, UsedToken, Selected,
  LoopExit, early, selected, Needs, uv_loop, from_ephemeral, from_persistent, newly_calculated,
  used_legacy_uv, shared_secret_only, no_token,
}

-- `Ctap2AuthTokenPermission::new` over the request.
abbrev pub token_identifier : PinUvAuthProtocol → UvRequest → AuthTokenPermission
token_identifier proto request = record {
  pin_uv_auth_protocol = proto;
  role = request.permissions;
  rpid = request.permissions_rpid;
}

module _ (c : Crypto) where
  -- A failure to store is only logged.
  mint : GetInfo → List ℕ → PinUvAuthProtocol → World → World
  mint info token proto w = elim w.store [
    | none ↦ w
    | some store ↦ elim (store_minted_token c info token proto w.fresh_id store) [
      | ok store' ↦ record w { store = some store' }
      | err e ↦ w
    ]
  ]

  -- A new token goes to the persistent store, or into the channel's data.
  pub keep_token : Selected → List ℕ → Ceremony (Unit {0})
  unfolding mint
  keep_token s token w =
      if w.request.wants_persistent_token
      then (ok tt, mint s.info token s.proto w)
      else store_auth_data
          (record {
            protocol_version = s.proto;
            key_agreement = s.public_key;
            shared_secret = s.shared_secret;
            uv_operation = s.operation;
            permission = some (token_identifier s.proto w.request);
            pin_uv_auth_token = some token;
          })
          w

  pub use_token : Selected → List ℕ → Ceremony UsedToken
  unfolding keep_token
  use_token s token =
      if token_len_valid s.proto (length token)
      then (do
        keep_token s token
        calculate_and_set_uv_auth s.proto token
        pure (newly_calculated s.operation))
      else raise (ctap other)

  encrypted_token : Option PinResponse → Option (List ℕ)
  encrypted_token none = none
  encrypted_token (some response) = response.pin_uv_auth_token

  pub take_token : Selected → Ceremony UsedToken
  unfolding use_token encrypted_token
  take_token s = elim (encrypted_token s.token_response) [
    | none ↦ raise (ctap other)
    | some encrypted ↦ do
      token ← lift (of_platform (c.decrypt s.proto s.shared_secret encrypted))
      use_token s token
  ]

  pub store_secret : Selected → UsedToken → Ceremony UsedToken
  store_secret s used = do
    store_auth_data (record {
      protocol_version = s.proto;
      key_agreement = s.public_key;
      shared_secret = s.shared_secret;
      uv_operation = s.operation;
      permission = none;
      pin_uv_auth_token = none;
    })
    pure used

  -- The packaging of the results, by the operation that ended the loop.
  unfoldable pub package_results : LoopExit → Ceremony UsedToken
  unfolding take_token store_secret
  package_results (early used) = pure used
  package_results (selected s) = elim s.operation [
    | only_for_shared_secret ↦ store_secret s shared_secret_only
    | legacy_uv ↦ store_secret s used_legacy_uv
    | _ ↦ take_token s
  ]

  -- Required verification on a device with none: the user may set a PIN first.
  unfoldable pub ensure_protected : UserVerificationRequirement → GetInfo → Ceremony GetInfo
  ensure_protected requirement info =
      if is_required requirement && not (is_uv_protected info)
      then (do
        try_to_set_pin c info pin_not_set
        info' ← ctap2_get_info
        if is_uv_protected info' then pure info' else raise (platform no_uv_available))
      else pure info

  pub run_loop : Needs → GetInfo → Ceremony UsedToken
  run_loop needs info = do
    w ← world
    ended ← uv_loop c (suc (length w.infos + length w.pins)) needs false info
    package_results ended

  -- The early returns without a token.
  stops_early : UserVerificationRequirement → Bool → Bool → Bool → Bool → Bool
  stops_early requirement needed can_establish uv dev_uv_protected =
      not needed && not uv
      || not needed && not dev_uv_protected && is_preferred requirement
      || needed && not can_establish && not uv

  unfoldable pub user_verification_helper :
      UserVerificationRequirement → GetInfo → Ceremony UsedToken
  unfolding run_loop stops_early
  user_verification_helper requirement info = do
    w ← world
    let can_establish = can_establish_shared_secret info
    let needed = w.request.needs_shared_secret info
    let uv = not (is_discouraged requirement) && (is_preferred requirement || is_uv_protected info)
    info' ← ensure_protected requirement info
    (if stops_early requirement needed can_establish uv (is_uv_protected info')
        then pure no_token
        else run_loop
            (record {
              requirement = requirement;
              needs_shared_secret = needed;
              can_establish_shared_secret = can_establish;
              skip_uv = not (w.request.can_use_uv info');
            })
            info')

  -- The token of a record that the store has for this authenticator, if the request takes one.
  persistent_record : World → GetInfo → Option (String × TokenRecord)
  persistent_record w info =
      if w.request.wants_persistent_token && not w.request.persistent_token_rejected
      then elim w.store [ none ↦ none | some store ↦ recognize_authenticator c info store ]
      else none

  -- The token that the channel holds for this request, with its protocol.
  ephemeral_token : World → GetInfo → Option (PinUvAuthProtocol × List ℕ)
  ephemeral_token w info = elim (select_uv_proto info) [
    | none ↦ none
    | some proto ↦ elim (get_uv_auth_token w.auth_data (token_identifier proto w.request)) [
      | none ↦ none
      | some token ↦ some (proto, token)
    ]
  ]

  -- `handle_legacy_preview` and `set_persistent_token_use`.
  prepare_request : GetInfo → Ceremony (Unit {0})
  prepare_request info w = (
    ok tt,
    record w {
      request = record w.request {
        preview_of = some info;
        wants_persistent_token = w.request.persistent_use info (is_some w.store);
      };
    },
  )

  -- A token that is found, or else the rest of the ceremony.
  pub reuse_or_verify :
      UserVerificationRequirement
      → GetInfo
      → Option (String × TokenRecord)
      → Option (PinUvAuthProtocol × List ℕ)
      → Ceremony UsedToken
  reuse_or_verify requirement info (some (id, r)) kept = do
    calculate_and_set_uv_auth r.protocol r.persistent_token
    pure (from_persistent id)
  reuse_or_verify requirement info none (some (proto, token)) = do
    calculate_and_set_uv_auth proto token
    pure from_ephemeral
  reuse_or_verify requirement info none none = user_verification_helper requirement info

  unfoldable pub user_verification : UserVerificationRequirement → Ceremony UsedToken
  unfolding persistent_record ephemeral_token prepare_request reuse_or_verify
  user_verification requirement = do
    info ← ctap2_get_info
    prepare_request info
    w ← world
    reuse_or_verify requirement info (persistent_record w info) (ephemeral_token w info)
