-- ===== src/Uv/Flow/Reflects.antt =====
-- webauthn/pin_uv_auth_token.rs: what the result of `user_verification` says about the request and
-- the channel's data.
use libwebauthn.Prelude.{
  ℕ, ◌≡◌, refl, sym, subst, ap, ◌⊎◌, inl, inr, true, false, none, some, List, length, Bool-cases,
  Option-cases, Result-cases,
}
use libwebauthn.Uv.Crypto.{Crypto}
use libwebauthn.Uv.Info.{
  GetInfo, UvOperation, legacy_uv, get_token_using_uv, get_token_using_pin, get_pin_token,
  only_for_shared_secret,
}
use libwebauthn.Uv.Token.{
  PinUvAuthProtocol, AuthTokenData, AuthTokenPermission, get_uv_auth_token, token_len_valid,
}
use libwebauthn.Uv.Token.Store.{contains_self}
use libwebauthn.Uv.Persistent.{store_minted_token}
use libwebauthn.Uv.World.{World, calculate_and_set_uv_auth, store_auth_data, ◌>>=◌, ◌>>◌}
use libwebauthn.Uv.World.Triple.{
  Triple, triple, Triple-bind, Triple-then, Triple-raise, Triple-pure, Triple-Anything, Anything,
  Outcome,
}
use libwebauthn.Uv.Round.{
  UserVerificationRequirement, is_required, UsedToken, from_ephemeral, from_persistent,
  newly_calculated, shared_secret_only, no_token, used_legacy_uv, LoopExit, early, selected,
  Selected,
}
use libwebauthn.Uv.Round.Steps.{UvSet}
use libwebauthn.Uv.Round.Exit.{Ended}
use libwebauthn.Uv.Flow.{
  mint, token_identifier, keep_token, use_token, take_token, store_secret, package_results,
  encrypted_token,
}

abbrev pub HasAuth : World → Type 0
HasAuth w =
    (proto : PinUvAuthProtocol) × ((token : List ℕ) × (w.request.uv_auth ≡ some (proto, token)))

-- A token that the channel gives out to the same request again, unless it goes to the persistent
-- store.
abbrev pub Kept : PinUvAuthProtocol → List ℕ → World → Type 0
Kept proto token w =
    (w.request.wants_persistent_token ≡ true)
    ⊎ (get_uv_auth_token w.auth_data (token_identifier proto w.request) ≡ some token)

abbrev pub HasNewAuth : World → Type 0
HasNewAuth w =
    (proto : PinUvAuthProtocol) × ((token : List ℕ) × (w.request.uv_auth ≡ some (proto, token))
      × (token_len_valid proto (length token) ≡ true)
      × Kept proto token w)

abbrev pub HasSecretOnly : World → Type 0
HasSecretOnly w =
    (d : AuthTokenData) × (w.auth_data ≡ some d)
    × (d.permission ≡ none)
    × (d.pin_uv_auth_token ≡ none)

abbrev pub Reflects : UserVerificationRequirement → UsedToken → World → Type 0
Reflects requirement from_ephemeral w = HasAuth w
Reflects requirement (from_persistent id) w = HasAuth w
Reflects requirement (newly_calculated operation) w = HasNewAuth w
Reflects requirement used_legacy_uv w = UvSet w.request
Reflects requirement shared_secret_only w = HasSecretOnly w
Reflects requirement no_token w = is_required requirement ≡ false

pub Outcome-calculate :
    (proto : PinUvAuthProtocol) (token : List ℕ) (F : World → Type 0) (w : World)
    → F (record w { request = record w.request { uv_auth = some (proto, token) } })
    → Outcome (λ a. F) (calculate_and_set_uv_auth proto token w)
unfolding calculate_and_set_uv_auth
Outcome-calculate proto token F w p = elim (Option-cases (w.request.auth_error proto token)) [
  | inl e ↦ rw (e, calculate_and_set_uv_auth) p
  | inr (failure, e) ↦ rw (e, calculate_and_set_uv_auth) tt
]

get_uv_auth_token-kept :
    (d : AuthTokenData) (p : AuthTokenPermission) (token : List ℕ)
    → d.permission ≡ some p
    → d.pin_uv_auth_token ≡ some token
    → get_uv_auth_token (some d) p ≡ some token
unfolding get_uv_auth_token
get_uv_auth_token-kept d p token e t = rw (e, contains_self p) t

request-mint :
    (c : Crypto) (info : GetInfo) (token : List ℕ) (proto : PinUvAuthProtocol) (w : World)
    → (mint c info token proto w).request ≡ w.request
unfolding mint
request-mint c info token proto w = elim (Option-cases w.store) [
  | inl e ↦ rw (e, mint) refl
  | inr (store, e) ↦ elim (Result-cases (store_minted_token c info token proto w.fresh_id store)) [
    | inl (store', e') ↦ rw (e, e', mint) refl
    | inr (failure, e') ↦ rw (e, e', mint) refl
  ]
]

module _ (c : Crypto) (requirement : UserVerificationRequirement) where
  Kept-keep_token :
      (s : Selected) (token : List ℕ)
      → Triple Anything (keep_token c s token) (λ a. Kept s.proto token)
  unfolding keep_token store_auth_data
  Kept-keep_token s token = triple (λ w p. elim (Bool-cases w.request.wants_persistent_token) [
    | inl e ↦
        rw (e, keep_token)
          (inl (ap (λ r. r.wants_persistent_token) (request-mint c s.info token s.proto _)))
    | inr e ↦ rw (e, keep_token) (inr (get_uv_auth_token-kept _ _ token refl refl))
  ])

  Reflects-use_token :
      (s : Selected) (token : List ℕ) → Triple Anything (use_token c s token) (Reflects requirement)
  unfolding use_token
  Reflects-use_token s token = elim (Bool-cases (token_len_valid s.proto (length token))) [
    | inl e ↦ rw e (
        Triple-then (λ a. Kept s.proto token) (Kept-keep_token s token)
          (λ kept.
            Triple-then (λ a. HasNewAuth)
              (triple (λ w p.
                Outcome-calculate s.proto token HasNewAuth w (s.proto, (token, refl, e, p))))
              (λ done. Triple-pure (λ w p. p))))
    | inr e ↦ rw e Triple-raise
  ]

  Reflects-take_token : (s : Selected) → Triple Anything (take_token c s) (Reflects requirement)
  unfolding take_token
  Reflects-take_token s = elim (Option-cases (encrypted_token c s.token_response)) [
    | inl e ↦ rw (e, take_token) Triple-raise
    | inr (encrypted, e) ↦
        rw (e, take_token)
          (Triple-bind (λ a. Anything) Triple-Anything (λ token. Reflects-use_token s token))
  ]

  Reflects-store_secret :
      (s : Selected) → Triple Anything (store_secret c s shared_secret_only) (Reflects requirement)
  unfolding store_secret store_auth_data ◌>>◌ ◌>>=◌
  Reflects-store_secret s = triple (λ w p. (_, refl, refl, refl))

  Reflects-store_legacy :
      (s : Selected)
      → Triple (λ w. UvSet w.request) (store_secret c s used_legacy_uv) (Reflects requirement)
  unfolding store_secret store_auth_data ◌>>◌ ◌>>=◌
  Reflects-store_legacy s = triple (λ w p. p)

  Reflects-selected :
      (s : Selected) (operation : UvOperation)
      → s.operation ≡ operation
      → Triple (Ended (selected s)) (package_results c (selected s)) (Reflects requirement)
  unfolding package_results
  Reflects-selected s only_for_shared_secret e =
      triple (λ w p. rw (e, package_results) ((Reflects-store_secret s).run w tt))
  Reflects-selected s legacy_uv e =
      triple (λ w p. rw (e, package_results) ((Reflects-store_legacy s).run w (p e)))
  Reflects-selected s get_token_using_uv e =
      triple (λ w p. rw (e, package_results) ((Reflects-take_token s).run w tt))
  Reflects-selected s get_token_using_pin e =
      triple (λ w p. rw (e, package_results) ((Reflects-take_token s).run w tt))
  Reflects-selected s get_pin_token e =
      triple (λ w p. rw (e, package_results) ((Reflects-take_token s).run w tt))

  pub Reflects-package_results :
      (ended : LoopExit) → Triple (Ended ended) (package_results c ended) (Reflects requirement)
  unfolding package_results
  Reflects-package_results (early used) =
      triple (λ w p. subst (λ u. Reflects requirement u w) (sym p.0) p.1)
  Reflects-package_results (selected s) = Reflects-selected s s.operation refl
