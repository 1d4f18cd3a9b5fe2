-- ===== src/Uv/Flow/Required.antt =====
-- webauthn/pin_uv_auth_token.rs: required verification on a device whose built-in verification is blocked.
use libwebauthn.Prelude.{
  ℕ, suc, ◌+◌, ◌-◌, ◌≡◌, refl, ap, Bool, true, false, not, some, List, ◌∷◌, length, Result, ok, err,
  arith,
}
use libwebauthn.Uv.Errors.{UvError, ctap, uv_blocked}
use libwebauthn.Uv.Crypto.{Crypto}
use libwebauthn.Uv.Info.{
  GetInfo, get_token_using_uv, only_for_shared_secret, uv_operation, is_uv_protected,
  can_establish_shared_secret,
}
use libwebauthn.Uv.Token.{PinUvAuthProtocol}
use libwebauthn.Uv.World.{World, PinResponse, store_auth_data, ◌>>=◌, ◌>>◌}
use libwebauthn.Uv.World.Triple.{Spec, triple, Ends, Triple-bind}
use libwebauthn.Uv.Pin.{select_uv_proto}
use libwebauthn.Uv.Round.{required, UsedToken, shared_secret_only, LoopExit, early, selected, Needs}
use libwebauthn.Uv.Round.Blocked.{NoError, Replies, SecretOnly, blocked_loop}
use libwebauthn.Uv.Flow.{
  run_loop, store_secret, ensure_protected, stops_early, user_verification_helper, package_results,
}

abbrev IsSecretOnly : UsedToken → World → Type 0
IsSecretOnly used w = used ≡ shared_secret_only

ok_of_NoError :
    (r : Result UvError UsedToken × World)
    → Ends NoError IsSecretOnly r
    → r.0 ≡ ok shared_secret_only
ok_of_NoError (ok used, w) h = ap ok h
ok_of_NoError (err e, w) h = absurd h

-- The replies alone give the loop two rounds.
two_rounds :
    (w : World) (a b : Result UvError PinResponse) (rest : List (Result UvError PinResponse))
    → Replies (a ∷ b ∷ rest) w
    → suc (length w.infos + length w.pins) ≡ suc (suc (length w.infos + length w.pins - 1))
two_rounds w a b rest e = let h = ap length e in omega (arith, h)

module _ (c : Crypto) where
  packs_secret :
      (ended : LoopExit) → Spec NoError (SecretOnly ended) (package_results c ended) IsSecretOnly
  unfolding package_results store_secret store_auth_data ◌>>◌ ◌>>=◌
  packs_secret (early used) = triple (λ w p. absurd p)
  packs_secret (selected s) = triple (λ w p. rw (p, package_results) refl)

  stops_early-protected :
      (needed can_establish dev_uv_protected : Bool)
      → dev_uv_protected ≡ true
      → stops_early c required needed can_establish true dev_uv_protected ≡ false
  unfolding stops_early
  stops_early-protected needed can_establish dev_uv_protected h = ground arith

  module _ (info : GetInfo) (proto : PinUvAuthProtocol) (key token secret : List ℕ)
      (response : PinResponse) (supported : select_uv_proto info ≡ some proto)
      (has_key : response.key_agreement ≡ some key)
      (encapsulated : c.encapsulate proto key ≡ ok (token, secret))
      (protected : is_uv_protected info ≡ true)
      (free : uv_operation info false ≡ some get_token_using_uv)
      (blocked : uv_operation info true ≡ some only_for_shared_secret) where
    run_loop-blocked :
        (needs : Needs) (w : World) (rest : List (Result UvError PinResponse))
        → needs.requirement ≡ required
        → needs.skip_uv ≡ false
        → Replies (ok response ∷ err (ctap uv_blocked) ∷ ok response ∷ rest) w
        → (run_loop c needs info w).0 ≡ ok shared_secret_only
    unfolding run_loop ◌>>=◌
    run_loop-blocked needs w rest is_needed can_use e = rw (two_rounds w _ _ _ e) (
        ok_of_NoError _ (
          (Triple-bind SecretOnly
              (blocked_loop c info proto key token secret response supported has_key encapsulated
                needs is_needed _ rest can_use free blocked)
              packs_secret).run
            w e))

    -- On a device that calls for built-in verification with a token, and for the shared secret alone
    -- once that verification is blocked (as one whose PIN is not set does), a required verification
    -- whose replies are a key, the error that verification is blocked, and a key again, ends well
    -- with the shared secret alone.
    pub user_verification_helper-blocked :
        (w : World) (rest : List (Result UvError PinResponse))
        → w.request.can_use_uv info ≡ true
        → w.pins ≡ ok response ∷ err (ctap uv_blocked) ∷ ok response ∷ rest
        → (user_verification_helper c required info w).0 ≡ ok shared_secret_only
    unfolding user_verification_helper ensure_protected ◌>>=◌
    user_verification_helper-blocked w rest can_use replies = rw protected (
        rw
          (stops_early-protected (w.request.needs_shared_secret info)
            (can_establish_shared_secret info) _ protected)
          (run_loop-blocked _ w rest refl (ap not can_use) replies))
