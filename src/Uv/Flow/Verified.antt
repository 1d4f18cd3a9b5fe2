-- ===== src/Uv/Flow/Verified.antt =====
-- webauthn/pin_uv_auth_token.rs: the whole of `user_verification`, from its start to its result.
use libwebauthn.Prelude.{
  ℕ, ◌≡◌, refl, inl, inr, Bool, true, false, not, ◌&&◌, ◌||◌, Option, none, some, List, Bool-cases,
  String, arith,
}
use libwebauthn.Uv.Crypto.{Crypto}
use libwebauthn.Uv.Info.{GetInfo, is_uv_protected, can_establish_shared_secret}
use libwebauthn.Uv.Token.{PinUvAuthProtocol}
use libwebauthn.Uv.Records.{TokenRecord}
use libwebauthn.Uv.World.{World, calculate_and_set_uv_auth, pure, ◌>>◌}
use libwebauthn.Uv.World.Triple.{
  Spec, AnyError, Triple, triple, Triple-bind, Triple-then, Triple-raise, Triple-pure,
  Triple-Anything, Anything, Outcome,
}
use libwebauthn.Uv.Round.{
  UserVerificationRequirement, required, discouraged, preferred, is_required, is_discouraged,
  is_preferred, UsedToken, from_ephemeral, from_persistent, Needs,
}
use libwebauthn.Uv.Round.Exit.{Ended, Ended-uv_loop}
use libwebauthn.Uv.Flow.{
  run_loop, stops_early, reuse_or_verify, ensure_protected, user_verification_helper,
  user_verification, persistent_record, ephemeral_token,
}
use libwebauthn.Uv.Flow.Reflects.{Reflects, HasAuth, Outcome-calculate, Reflects-package_results}

-- Required verification goes on only with a device that has some.
abbrev Protected : UserVerificationRequirement → GetInfo → World → Type 0
Protected requirement info w = is_required requirement ≡ true → is_uv_protected info ≡ true

module _ (c : Crypto) where
  Protected-ensure_protected :
      (requirement : UserVerificationRequirement) (info : GetInfo)
      → Triple Anything (ensure_protected c requirement info) (Protected requirement)
  unfolding ensure_protected
  Protected-ensure_protected requirement info =
      elim (Bool-cases (is_required requirement && not (is_uv_protected info))) [
        | inl e ↦ rw e (
            Triple-then (λ a. Anything) Triple-Anything
              (λ done.
                Triple-bind (λ a. Anything) Triple-Anything
                  (λ info'. elim (Bool-cases (is_uv_protected info')) [
                    | inl e' ↦ rw e' (Triple-pure (λ w p h. e'))
                    | inr e' ↦ rw e' Triple-raise
                  ])))
        | inr e ↦ rw e (Triple-pure (λ w p h. ground arith))
      ]

  Reflects-run_loop :
      (requirement : UserVerificationRequirement) (needs : Needs) (info : GetInfo)
      → Triple Anything (run_loop c needs info) (Reflects requirement)
  unfolding run_loop
  Reflects-run_loop requirement needs info =
      Triple-bind (λ a. Anything) Triple-Anything
        (λ w.
          Triple-bind Ended (Ended-uv_loop c _ needs false info)
            (Reflects-package_results c requirement))

  stops_early-required :
      (requirement : UserVerificationRequirement) (needed can_establish dev_before dev_after : Bool)
      → (is_required requirement ≡ true → dev_after ≡ true)
      → stops_early c requirement needed can_establish
          (not (is_discouraged requirement) && (is_preferred requirement || dev_before))
          dev_after
        ≡ true
      → is_required requirement ≡ false
  unfolding stops_early
  stops_early-required required needed can_establish dev_before dev_after p e = ground arith
  stops_early-required discouraged needed can_establish dev_before dev_after p e = refl
  stops_early-required preferred needed can_establish dev_before dev_after p e = refl

  Reflects-helper :
      (requirement : UserVerificationRequirement) (info : GetInfo)
      → Triple Anything (user_verification_helper c requirement info) (Reflects requirement)
  unfolding user_verification_helper
  Reflects-helper requirement info =
      Triple-bind (λ a. Anything) Triple-Anything
        (λ w.
          Triple-bind (Protected requirement) (Protected-ensure_protected requirement info)
            (λ info'.
              elim (Bool-cases (
                stops_early c requirement (w.request.needs_shared_secret info)
                  (can_establish_shared_secret info)
                  (not (is_discouraged requirement)
                    && (is_preferred requirement || is_uv_protected info))
                  (is_uv_protected info'))) [
                    | inl e ↦
                        rw e (Triple-pure (λ w' p. stops_early-required requirement _ _ _ _ p e))
                    | inr e ↦
                        rw e (triple (λ w' p. (Reflects-run_loop requirement _ info').run w' tt))
                  ]))

  Reflects-reuse :
      (requirement : UserVerificationRequirement) (proto : PinUvAuthProtocol) (token : List ℕ)
      (used : UsedToken)
      → ((w : World) → HasAuth w → Reflects requirement used w)
      → Triple Anything (calculate_and_set_uv_auth proto token >> pure used) (Reflects requirement)
  Reflects-reuse requirement proto token used h =
      Triple-then (λ a. HasAuth)
        (triple (λ w p. Outcome-calculate proto token HasAuth w (proto, (token, refl))))
        (λ done. Triple-pure h)

  Reflects-reuse_or_verify :
      (requirement : UserVerificationRequirement) (info : GetInfo)
      (found : Option (String × TokenRecord)) (kept : Option (PinUvAuthProtocol × List ℕ))
      → Triple Anything (reuse_or_verify c requirement info found kept) (Reflects requirement)
  unfolding reuse_or_verify
  Reflects-reuse_or_verify requirement info (some (id, r)) kept =
      Reflects-reuse requirement _ _ (from_persistent id) (λ w p. p)
  Reflects-reuse_or_verify requirement info none (some (proto, token)) =
      Reflects-reuse requirement _ _ from_ephemeral (λ w p. p)
  Reflects-reuse_or_verify requirement info none none = Reflects-helper requirement info

  -- A result of user verification is true of the world it leaves. After a token that was found, or
  -- acquired, the request carries authentication by a token; a new one has a length that its protocol
  -- allows, and unless it goes to the persistent store, the channel gives it out to the same
  -- request again. After legacy verification the request has the `uv` option set. After a shared secret alone the
  -- channel has data with no token and no permission. No token at all is no result of a required
  -- verification.
  pub user_verification-Reflects :
      (requirement : UserVerificationRequirement) (w : World)
      → Outcome (Reflects requirement) (user_verification c requirement w)
  unfolding user_verification
  user_verification-Reflects requirement w =
      Spec.run
        (Triple-bind {E = AnyError} {P = Anything} (λ a. Anything) Triple-Anything
          (λ info.
            Triple-then (λ a. Anything) Triple-Anything
              (λ done.
                Triple-bind (λ a. Anything) Triple-Anything
                  (λ w'.
                    Reflects-reuse_or_verify requirement info (persistent_record c w' info)
                      (ephemeral_token c w' info)))))
        w tt
