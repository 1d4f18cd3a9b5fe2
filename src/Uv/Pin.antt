-- ===== src/Uv/Pin.antt =====
-- webauthn/pin_uv_auth_token.rs and pin/mod.rs: choosing a protocol, the shared secret, asking for
-- a PIN, and setting a new one.
pub mod Keeps
pub mod Rounds
use libwebauthn.Prelude.{
  ℕ, zero, suc, ◌-◌, Bool, true, false, Option, none, some, List, [], ◌∷◌, ◌++◌, ltb, leb, ◌==◌,
  if◌then◌else◌, length, replicate, String, Result, ok, err,
}
use libwebauthn.Uv.Errors.{
  UvError, PinRequestReason, PinNotSetReason, ctap, platform, out_of_rounds, other, pin_required,
  pin_policy_violation, pin_too_short, pin_too_long, pin_not_supported, invalid_device_response,
  cancelled, authenticator_policy, reason_too_short, reason_too_long, reason_policy,
}
use libwebauthn.Uv.Crypto.{Crypto}
use libwebauthn.Uv.Info.{GetInfo, option_exists, option_of, supports_fido_2_1}
use libwebauthn.Uv.Token.{PinUvAuthProtocol, one, two}
use libwebauthn.Uv.Records.{TokenStore, TokenRecord}
use libwebauthn.Uv.Persistent.{recognize_authenticator, delete}
use libwebauthn.Uv.World.{
  Ceremony, Call, PinRequest, PinResponse, World, pure, raise, lift, attempt, world, of_platform,
  ◌>>=◌, ◌>>◌, ctap2_client_pin, ask_pin, get_key_agreement, get_pin_retries, pin_not_set,
  change_pin, set_pin,
}

first_supported : List ℕ → Option PinUvAuthProtocol
first_supported [] = none
first_supported (n ∷ rest) =
    if n == 1 then some one else if n == 2 then some two else first_supported rest

-- `select_uv_proto`, without the override of the test feature `virt`.
unfoldable pub select_uv_proto : GetInfo → Option PinUvAuthProtocol
unfolding first_supported
select_uv_proto info = elim info.pin_auth_protos [ none ↦ none | some ns ↦ first_supported ns ]

module _ (c : Crypto) where
  unfoldable pub obtain_shared_secret : PinUvAuthProtocol → Ceremony (List ℕ × List ℕ)
  obtain_shared_secret proto = do
    response ← ctap2_client_pin (get_key_agreement proto)
    elim response.key_agreement [
      | none ↦ raise (ctap other)
      | some key ↦ lift (of_platform (c.encapsulate proto key))
    ]

-- `.map(|x| x.pin_retries).ok().flatten()`.
retries_of : Result UvError PinResponse → Option ℕ
retries_of (ok response) = response.pin_retries
retries_of (err e) = none

module _ (c : Crypto) where
  unfoldable pub obtain_pin : GetInfo → PinUvAuthProtocol → PinRequestReason → Ceremony (List ℕ)
  unfolding retries_of
  obtain_pin info proto reason = do
    reply ←
        attempt
          (ctap2_client_pin (get_pin_retries (if supports_fido_2_1 info then none else some proto)))
    entry ← ask_pin (Call.pin_required reason (retries_of reply))
    elim entry [ none ↦ raise (ctap pin_required) | some pin ↦ pure (c.normalize pin) ]

-- The record of this authenticator, if there is a store that has one.
own_record : Crypto → GetInfo → Option TokenStore → Option (String × TokenRecord)
own_record c info none = none
own_record c info (some store) = recognize_authenticator c info store

evict_from : Option TokenStore → Option (String × TokenRecord) → Option TokenStore
evict_from none found = none
evict_from (some store) none = some store
evict_from (some store) (some (id, r)) = some (delete id store)

evict : Option (String × TokenRecord) → Ceremony (Unit {0})
unfolding evict_from
evict found w = (ok tt, record w { store = evict_from w.store found })

-- `min_pin_length.unwrap_or(4)`.
min_length : Option ℕ → ℕ
min_length none = 4
min_length (some n) = n

module _ (c : Crypto) where
  -- The PIN that is set now, asked for if there is one.
  current_pin : GetInfo → PinUvAuthProtocol → Ceremony (Option (List ℕ))
  current_pin info proto = elim info.options [
    | none ↦ raise (platform invalid_device_response)
    | some options ↦ elim (option_of info "clientPin") [
      | some true ↦ (do pin ← obtain_pin c info proto authenticator_policy; pure (some pin))
      | some false ↦ pure none
      | none ↦ raise (platform pin_not_supported)
    ]
  ]

  -- The request that sets or changes the PIN, from the encrypted new PIN.
  pin_change_request :
      PinUvAuthProtocol → List ℕ → List ℕ → List ℕ → Option (List ℕ) → Ceremony PinRequest
  pin_change_request proto public_key secret new_pin_enc none = do
    param ← lift (of_platform (c.authenticate proto secret new_pin_enc))
    pure (set_pin proto new_pin_enc public_key param)
  pin_change_request proto public_key secret new_pin_enc (some current) = do
    hash_enc ← lift (of_platform (c.encrypt proto secret (c.pin_hash current)))
    param ← lift (of_platform (c.authenticate proto secret (new_pin_enc ++ hash_enc)))
    pure (change_pin proto new_pin_enc hash_enc public_key param)

  -- `change_pin_internal` behind its two tests on the length of the PIN.
  send_new_pin : GetInfo → List ℕ → Ceremony (Unit {0})
  unfolding own_record evict current_pin pin_change_request
  send_new_pin info new_pin = do
    w ← world
    let own = own_record c info w.store
    elim (select_uv_proto info) [
      | none ↦ raise (ctap other)
      | some proto ↦ do
        current ← current_pin info proto
        (public_key, secret) ← obtain_shared_secret c proto
        new_pin_enc ←
            lift
              (of_platform (c.encrypt proto secret (new_pin ++ replicate (64 - length new_pin) 0)))
        request ← pin_change_request proto public_key secret new_pin_enc current
        response ← ctap2_client_pin request
        evict own
    ]

  unfoldable pub change_pin_internal : GetInfo → List ℕ → Ceremony (Unit {0})
  unfolding min_length send_new_pin
  change_pin_internal info entered =
      let new_pin = c.normalize entered in
      if ltb (c.count_chars new_pin) (min_length info.min_pin_length)
      then raise (platform pin_too_short)
      else if leb 64 (length new_pin)
      then raise (platform pin_too_long)
      else send_new_pin info new_pin

  -- What a failed attempt tells the user at the next one; `none` for an error that ends the loop.
  next_reason : UvError → Option PinNotSetReason
  next_reason (platform pin_too_short) = some reason_too_short
  next_reason (platform pin_too_long) = some reason_too_long
  next_reason (ctap pin_policy_violation) = some reason_policy
  next_reason _ = none

  -- The end of a round of the dialog; `again` asks once more.
  after_attempt :
      (PinNotSetReason → Ceremony (Unit {0})) → Result UvError (Unit {0}) → Ceremony (Unit {0})
  unfolding next_reason
  after_attempt again (ok done) = pure tt
  after_attempt again (err e) = elim (next_reason e) [ none ↦ raise e | some reason ↦ again reason ]

  -- The dialog until a PIN is accepted. Every round that goes on has used up an entry.
  set_pin_loop : ℕ → GetInfo → PinNotSetReason → Ceremony (Unit {0})
  unfolding change_pin_internal after_attempt
  set_pin_loop zero info reason = raise out_of_rounds
  set_pin_loop (suc fuel) info reason = do
    entry ← ask_pin (pin_not_set reason)
    elim entry [
      | none ↦ raise (platform cancelled)
      | some pin ↦ do
        result ← attempt (change_pin_internal info pin)
        after_attempt (set_pin_loop fuel info) result
    ]

  unfoldable pub try_to_set_pin : GetInfo → PinNotSetReason → Ceremony (Unit {0})
  unfolding set_pin_loop
  try_to_set_pin info reason =
      if option_exists info "clientPin"
      then (do w ← world; set_pin_loop (suc (length w.entries)) info reason)
      else pure tt
