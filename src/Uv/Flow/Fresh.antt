-- ===== src/Uv/Flow/Fresh.antt =====
-- webauthn/pin_uv_auth_token.rs: `user_verification_helper` names no token from before.
use libwebauthn.Prelude.{
  ℕ, ◌≡◌, refl, sym, subst, inl, inr, false, not, ◌&&◌, ◌||◌, List, length, Option-cases,
  Bool-cases,
}
use libwebauthn.Uv.Crypto.{Crypto}
use libwebauthn.Uv.Info.{
  GetInfo, is_uv_protected, can_establish_shared_secret, UvOperation, legacy_uv, get_token_using_uv,
  get_token_using_pin, get_pin_token, only_for_shared_secret,
}
use libwebauthn.Uv.Token.{token_len_valid}
use libwebauthn.Uv.World.{World}
use libwebauthn.Uv.World.Triple.{
  Triple, triple, Triple-bind, Triple-then, Triple-raise, Triple-pure, Triple-Anything, Anything,
}
use libwebauthn.Uv.Round.{
  UserVerificationRequirement, is_discouraged, is_preferred, UsedToken, from_ephemeral,
  from_persistent, shared_secret_only, used_legacy_uv, Needs, LoopExit, early, selected, Selected,
}
use libwebauthn.Uv.Round.Exit.{Ended, Ended-uv_loop}
use libwebauthn.Uv.Flow.{
  use_token, take_token, store_secret, package_results, encrypted_token, run_loop, stops_early,
  user_verification_helper,
}

-- A result that names no token from before.
abbrev pub Fresh : UsedToken → World → Type 0
Fresh from_ephemeral w = ⊥
Fresh (from_persistent id) w = ⊥
Fresh _ w = Unit {0}

module _ (c : Crypto) where
  Fresh-use_token : (s : Selected) (token : List ℕ) → Triple Anything (use_token c s token) Fresh
  unfolding use_token
  Fresh-use_token s token = elim (Bool-cases (token_len_valid s.proto (length token))) [
    | inl e ↦ rw e (
        Triple-then (λ a. Anything) Triple-Anything
          (λ kept. Triple-then (λ a. Anything) Triple-Anything (λ done. Triple-pure (λ w p. tt))))
    | inr e ↦ rw e Triple-raise
  ]

  Fresh-take_token : (s : Selected) → Triple Anything (take_token c s) Fresh
  unfolding take_token
  Fresh-take_token s = elim (Option-cases (encrypted_token c s.token_response)) [
    | inl e ↦ rw (e, take_token) Triple-raise
    | inr (encrypted, e) ↦
        rw (e, take_token)
          (Triple-bind (λ a. Anything) Triple-Anything (λ token. Fresh-use_token s token))
  ]

  Fresh-store_secret :
      (s : Selected) (used : UsedToken)
      → ((w : World) → Fresh used w)
      → Triple Anything (store_secret c s used) Fresh
  unfolding store_secret
  Fresh-store_secret s used h =
      Triple-then (λ a. Anything) Triple-Anything (λ done. Triple-pure (λ w p. h w))

  Fresh-selected :
      (s : Selected) (operation : UvOperation)
      → s.operation ≡ operation
      → Triple Anything (package_results c (selected s)) Fresh
  unfolding package_results
  Fresh-selected s only_for_shared_secret e =
      rw (e, package_results) (Fresh-store_secret s shared_secret_only (λ w. tt))
  Fresh-selected s legacy_uv e =
      rw (e, package_results) (Fresh-store_secret s used_legacy_uv (λ w. tt))
  Fresh-selected s get_token_using_uv e = rw (e, package_results) (Fresh-take_token s)
  Fresh-selected s get_token_using_pin e = rw (e, package_results) (Fresh-take_token s)
  Fresh-selected s get_pin_token e = rw (e, package_results) (Fresh-take_token s)

  Fresh-package_results : (ended : LoopExit) → Triple (Ended ended) (package_results c ended) Fresh
  unfolding package_results
  Fresh-package_results (early used) = triple (λ w p. subst (λ u. Fresh u w) (sym p.0) tt)
  Fresh-package_results (selected s) = triple (λ w p. (Fresh-selected s s.operation refl).run w tt)

  Fresh-run_loop : (needs : Needs) (info : GetInfo) → Triple Anything (run_loop c needs info) Fresh
  unfolding run_loop
  Fresh-run_loop needs info =
      Triple-bind (λ a. Anything) Triple-Anything
        (λ w. Triple-bind Ended (Ended-uv_loop c _ needs false info) Fresh-package_results)

  pub Fresh-helper :
      (requirement : UserVerificationRequirement) (info : GetInfo)
      → Triple Anything (user_verification_helper c requirement info) Fresh
  unfolding user_verification_helper
  Fresh-helper requirement info =
      Triple-bind (λ a. Anything) Triple-Anything
        (λ w.
          Triple-bind (λ a. Anything) Triple-Anything
            (λ info'.
              elim (Bool-cases (
                stops_early c requirement (w.request.needs_shared_secret info)
                  (can_establish_shared_secret info)
                  (not (is_discouraged requirement)
                    && (is_preferred requirement || is_uv_protected info))
                  (is_uv_protected info'))) [
                    | inl e ↦ rw e (Triple-pure (λ w' p. tt))
                    | inr e ↦ rw e (Fresh-run_loop _ info')
                  ]))
