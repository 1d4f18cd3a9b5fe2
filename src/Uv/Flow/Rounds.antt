-- ===== src/Uv/Flow/Rounds.antt =====
-- webauthn/pin_uv_auth_token.rs: `user_verification` ends, with fuel to spare.
use libwebauthn.Prelude.{
  ℕ, suc, ◌+◌, ◌≡◌, ◌≢◌, refl, false, not, ◌&&◌, ◌||◌, Option, none, some, List, All, length, inl,
  inr, Option-cases, Bool-cases, Result-cases, String, Result, ok, err, arith,
}
use libwebauthn.Uv.Errors.{UvError, out_of_rounds, other, pin_not_set}
use libwebauthn.Uv.Crypto.{Crypto}
use libwebauthn.Uv.Info.{
  GetInfo, is_uv_protected, can_establish_shared_secret, UvOperation, legacy_uv, get_token_using_uv,
  get_token_using_pin, get_pin_token, only_for_shared_secret,
}
use libwebauthn.Uv.Token.{PinUvAuthProtocol, token_len_valid}
use libwebauthn.Uv.Records.{TokenRecord}
use libwebauthn.Uv.Persistent.{store_minted_token}
use libwebauthn.Uv.World.{
  World, calculate_and_set_uv_auth, store_auth_data, world, ◌>>=◌, ◌>>◌, ctap2_get_info,
}
use libwebauthn.Uv.World.Triple.{triple, Ends, Triple-bind}
use libwebauthn.Uv.World.Budget.{Told, Fits, Fits-weaken, Fine, get_info_spends}
use libwebauthn.Uv.World.Quiet.{
  Quiet, Quiet-bind, Quiet-then, Quiet-pure, Quiet-raise_ctap, Quiet-raise_platform, Quiet-lift,
  Spent-Fits, Spec_weaken, platform_told,
}
use libwebauthn.Uv.Pin.Rounds.{Quiet-try_to_set_pin}
use libwebauthn.Uv.Round.{
  UserVerificationRequirement, is_required, is_discouraged, is_preferred, UsedToken, LoopExit,
  early, selected, Selected, Needs,
}
use libwebauthn.Uv.Round.Rounds.{Fine-uv_loop}
use libwebauthn.Uv.Flow.{
  mint, keep_token, use_token, take_token, store_secret, package_results, run_loop,
  ensure_protected, stops_early, user_verification_helper, reuse_or_verify, prepare_request,
  user_verification, persistent_record, ephemeral_token, encrypted_token,
}

Fits-mint :
    (c : Crypto) (info : GetInfo) (token : List ℕ) (proto : PinUvAuthProtocol) (k n : ℕ) (w : World)
    → Fits k n w
    → Fits k n (mint c info token proto w)
unfolding mint
Fits-mint c info token proto k n w f = elim (Option-cases w.store) [
  | inl e ↦ rw (e, mint) f
  | inr (store, e) ↦ elim (Result-cases (store_minted_token c info token proto w.fresh_id store)) [
    | inl (store', e') ↦
        rw (e, e', mint)
          (record {
            infos_told = f.infos_told;
            pins_told = f.pins_told;
            calls_left = f.calls_left;
            entries_left = f.entries_left;
          })
    | inr (failure, e') ↦ rw (e, e', mint) f
  ]
]

Quiet-calculate :
    (proto : PinUvAuthProtocol) (token : List ℕ) → Quiet (calculate_and_set_uv_auth proto token)
unfolding calculate_and_set_uv_auth
Quiet-calculate proto token k n = triple (λ w f.
    elim (Option-cases (w.request.auth_error proto token)) [
      | inl e ↦
          rw (e, calculate_and_set_uv_auth)
            (record {
              infos_told = f.infos_told;
              pins_told = f.pins_told;
              calls_left = f.calls_left;
              entries_left = f.entries_left;
            })
      | inr (failure, e) ↦ rw (e, calculate_and_set_uv_auth) (platform_told failure, f)
    ])

Quiet-get_info : Quiet ctap2_get_info
Quiet-get_info k n = Spec_weaken (λ e w h. h) (λ w f. f) (λ a. Spent-Fits k n) (get_info_spends k n)

module _ (c : Crypto) where
  Quiet-keep_token : (s : Selected) (token : List ℕ) → Quiet (keep_token c s token)
  unfolding keep_token store_auth_data
  Quiet-keep_token s token k n = triple (λ w f. elim (Bool-cases w.request.wants_persistent_token) [
    | inl e ↦
        rw (e, keep_token)
          (Fits-mint c s.info token s.proto k n _ (record {
            infos_told = f.infos_told;
            pins_told = f.pins_told;
            calls_left = f.calls_left;
            entries_left = f.entries_left;
          }))
    | inr e ↦
        rw (e, keep_token)
          (record {
            infos_told = f.infos_told;
            pins_told = f.pins_told;
            calls_left = f.calls_left;
            entries_left = f.entries_left;
          })
  ])

  Quiet-use_token : (s : Selected) (token : List ℕ) → Quiet (use_token c s token)
  unfolding use_token
  Quiet-use_token s token = elim (Bool-cases (token_len_valid s.proto (length token))) [
    | inl e ↦ rw e (
        Quiet-then (Quiet-keep_token s token)
          (Quiet-then (Quiet-calculate s.proto token) Quiet-pure))
    | inr e ↦ rw e (Quiet-raise_ctap other)
  ]

  Quiet-take_token : (s : Selected) → Quiet (take_token c s)
  unfolding take_token
  Quiet-take_token s = elim (Option-cases (encrypted_token c s.token_response)) [
    | inl e ↦ rw (e, take_token) (Quiet-raise_ctap other)
    | inr (encrypted, e) ↦
        rw (e, take_token) (Quiet-bind (Quiet-lift _) (λ token. Quiet-use_token s token))
  ]

  Quiet-store_secret : (s : Selected) (used : UsedToken) → Quiet (store_secret c s used)
  unfolding store_secret store_auth_data ◌>>◌ ◌>>=◌
  Quiet-store_secret s used k n = triple (λ w f. record {
    infos_told = f.infos_told;
    pins_told = f.pins_told;
    calls_left = f.calls_left;
    entries_left = f.entries_left;
  })

  Quiet-selected :
      (s : Selected) (operation : UvOperation)
      → s.operation ≡ operation
      → Quiet (package_results c (selected s))
  unfolding package_results
  Quiet-selected s only_for_shared_secret e = rw (e, package_results) (Quiet-store_secret s _)
  Quiet-selected s legacy_uv e = rw (e, package_results) (Quiet-store_secret s _)
  Quiet-selected s get_token_using_uv e = rw (e, package_results) (Quiet-take_token s)
  Quiet-selected s get_token_using_pin e = rw (e, package_results) (Quiet-take_token s)
  Quiet-selected s get_pin_token e = rw (e, package_results) (Quiet-take_token s)

  Quiet-package_results : (ended : LoopExit) → Quiet (package_results c ended)
  unfolding package_results
  Quiet-package_results (early used) = Quiet-pure
  Quiet-package_results (selected s) = Quiet-selected s s.operation refl

  Quiet-run_loop : (needs : Needs) (info : GetInfo) → Quiet (run_loop c needs info)
  unfolding run_loop ◌>>=◌
  Quiet-run_loop needs info k n = triple (λ w f.
      let m = length w.infos + length w.pins in
      (Spec_weaken {E' = Fine k n} {P' = Fits m n} {Q' = λ a. Fits k n}
          (λ e w' (told, f'). (told, Fits-weaken m n k n w' f.calls_left (omega arith) f'))
          (λ w' f'. f') (λ a w' f'. Fits-weaken m n k n w' f.calls_left (omega arith) f')
          (Triple-bind (λ a. Fits m n) (Fine-uv_loop c (suc m) needs false info m n (omega arith))
            (λ ended. Quiet-package_results ended m n))).run
        w
        (record {
          infos_told = f.infos_told;
          pins_told = f.pins_told;
          calls_left = omega arith;
          entries_left = f.entries_left;
        }))

  Quiet-ensure_protected :
      (requirement : UserVerificationRequirement) (info : GetInfo)
      → Quiet (ensure_protected c requirement info)
  unfolding ensure_protected
  Quiet-ensure_protected requirement info =
      elim (Bool-cases (is_required requirement && not (is_uv_protected info))) [
        | inl e ↦ rw e (
            Quiet-then (Quiet-try_to_set_pin c info pin_not_set) (
              Quiet-bind Quiet-get_info (λ info'. elim (Bool-cases (is_uv_protected info')) [
                | inl e' ↦ rw e' Quiet-pure
                | inr e' ↦ rw e' (Quiet-raise_platform _)
              ])))
        | inr e ↦ rw e Quiet-pure
      ]

  Quiet-world : Quiet world
  Quiet-world k n = triple (λ w f. f)

  Quiet-helper :
      (requirement : UserVerificationRequirement) (info : GetInfo)
      → Quiet (user_verification_helper c requirement info)
  unfolding user_verification_helper
  Quiet-helper requirement info = Quiet-bind Quiet-world (λ w.
      Quiet-bind (Quiet-ensure_protected requirement info) (λ info'.
        elim (Bool-cases (
          stops_early c requirement (w.request.needs_shared_secret info)
            (can_establish_shared_secret info)
            (not (is_discouraged requirement) && (is_preferred requirement || is_uv_protected info))
            (is_uv_protected info'))) [
              | inl e ↦ rw e Quiet-pure
              | inr e ↦ rw e (Quiet-run_loop _ info')
            ]))

  Quiet-reuse_or_verify :
      (requirement : UserVerificationRequirement) (info : GetInfo)
      (found : Option (String × TokenRecord)) (kept : Option (PinUvAuthProtocol × List ℕ))
      → Quiet (reuse_or_verify c requirement info found kept)
  unfolding reuse_or_verify
  Quiet-reuse_or_verify requirement info (some (id, r)) kept =
      Quiet-then (Quiet-calculate _ _) Quiet-pure
  Quiet-reuse_or_verify requirement info none (some (proto, token)) =
      Quiet-then (Quiet-calculate _ _) Quiet-pure
  Quiet-reuse_or_verify requirement info none none = Quiet-helper requirement info

  Quiet-prepare_request : (info : GetInfo) → Quiet (prepare_request c info)
  unfolding prepare_request
  Quiet-prepare_request info k n = triple (λ w f. record {
    infos_told = f.infos_told;
    pins_told = f.pins_told;
    calls_left = f.calls_left;
    entries_left = f.entries_left;
  })

  pub Quiet-user_verification :
      (requirement : UserVerificationRequirement) → Quiet (user_verification c requirement)
  unfolding user_verification
  Quiet-user_verification requirement = Quiet-bind Quiet-get_info (λ info.
      Quiet-then (Quiet-prepare_request info) (
        Quiet-bind Quiet-world (λ w.
          Quiet-reuse_or_verify requirement info (persistent_record c w info)
            (ephemeral_token c w info))))

Told-Ends :
    {A : Type 0} (k n : ℕ) (r : Result UvError A × World)
    → Ends (Fine k n) (λ a. Fits k n) r
    → Told r.0
Told-Ends k n (ok a, w) h = λ e. cc
Told-Ends k n (err e, w) h = λ g. ground (arith, h.0)

-- If no reply of the device is the error that stands for a loop without fuel, then user
-- verification does not end in it: the loops end after as many rounds as there are replies and
-- PIN entries.
pub user_verification-Told :
    (c : Crypto) (requirement : UserVerificationRequirement) (w : World)
    → All Told w.infos
    → All Told w.pins
    → (user_verification c requirement w).0 ≢ err out_of_rounds
user_verification-Told c requirement w infos_told pins_told =
    Told-Ends _ _ (user_verification c requirement w) (
      (Quiet-user_verification c requirement (length w.infos + length w.pins)
          (length w.entries)).run
        w
        (record {
          infos_told = infos_told;
          pins_told = pins_told;
          calls_left = omega arith;
          entries_left = omega arith;
        }))
