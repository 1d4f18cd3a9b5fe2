-- ===== src/Uv/Round/Rounds.antt =====
-- webauthn/pin_uv_auth_token.rs: the loop of `user_verification_helper` ends, with fuel to spare.
use libwebauthn.Prelude.{
  ℕ, zero, suc, ◌-◌, ◌<◌, refl, Bool, true, false, ◌&&◌, ◌||◌, Option, none, some, List, inl, inr,
  Option-cases, Bool-cases, Result, ok, err, arith,
}
use libwebauthn.Uv.Errors.{
  UvError, transport, platform, out_of_rounds, ctap, uv_blocked, uv_invalid, pin_required,
  pin_policy_violation, pin_auth_invalid, no_credentials, other, ctap_code,
}
use libwebauthn.Uv.Crypto.{Crypto}
use libwebauthn.Uv.Info.{
  GetInfo, UvOperation, legacy_uv, is_true, uv_operation, get_token_using_uv, get_token_using_pin,
  get_pin_token, only_for_shared_secret,
}
use libwebauthn.Uv.Token.{PinUvAuthProtocol}
use libwebauthn.Uv.World.{Ceremony, PinResponse, raise, lift, ensure_uv_set, ◌>>◌, ◌>>=◌}
use libwebauthn.Uv.World.Triple.{Spec, triple, Triple-bind, Triple-then, Spec-raise, Triple-pure}
use libwebauthn.Uv.World.Budget.{
  Told, Fits, Fine, Spent, Fits-weaken, client_pin_spends, get_info_spends,
}
use libwebauthn.Uv.World.Quiet.{
  Quiet, Quiet-bind, Quiet-then, Quiet-pure, Quiet-raise_ctap, Quiet-raise_platform, Quiet-lift,
  Quiet-client_pin, Quiet-attempt, Quiet-note, Quiet-Spent, attempt-Told-Spent, Spent-Fits,
  Spec_weaken, ctap_told, platform_told,
}
use libwebauthn.Uv.Pin.{select_uv_proto, obtain_shared_secret}
use libwebauthn.Uv.Pin.Rounds.{Quiet-obtain_pin, Quiet-try_to_set_pin}
use libwebauthn.Uv.Round.{
  LoopExit, Needs, Selected, Choice, give_up, go_on, uv_round, uv_loop, after_reply, run_operation,
  uv_retries_of, is_zero, is_client_pin, follow, selection, choose_operation, prepare_operation,
  blocked_error, enforce, pin_for, token_request, pin_hash_enc, enforce_no_mc_ga_with_client_pin,
}

Quiet-prepare_operation :
    (needs : Needs) (info : GetInfo) (operation : UvOperation)
    → Quiet (prepare_operation needs info operation)
unfolding prepare_operation ensure_uv_set ◌>>◌ ◌>>=◌
Quiet-prepare_operation needs info legacy_uv k n = triple (λ w f. record {
  infos_told = f.infos_told;
  pins_told = f.pins_told;
  calls_left = f.calls_left;
  entries_left = f.entries_left;
})
Quiet-prepare_operation needs info get_token_using_uv k n = triple (λ w f. f)
Quiet-prepare_operation needs info get_token_using_pin k n = triple (λ w f. f)
Quiet-prepare_operation needs info get_pin_token k n = triple (λ w f. f)
Quiet-prepare_operation needs info only_for_shared_secret k n = triple (λ w f. f)

Quiet-blocked_error : (blocked : Bool) → Quiet (raise {A = Choice} (blocked_error blocked))
unfolding blocked_error
Quiet-blocked_error true = Quiet-raise_ctap _
Quiet-blocked_error false = Quiet-raise_platform _

Quiet-choose_operation :
    (needs : Needs) (blocked : Bool) (info : GetInfo) → Quiet (choose_operation needs blocked info)
unfolding choose_operation
Quiet-choose_operation needs blocked info =
    elim (Option-cases (uv_operation info (blocked || needs.skip_uv))) [
      | inl e ↦ rw (e, choose_operation) (Quiet-blocked_error blocked)
      | inr (operation, e) ↦ rw (e, choose_operation) (Quiet-prepare_operation needs info operation)
    ]

Quiet-enforce :
    (needs : Needs) (blocked : Bool) (info : GetInfo) (operation : UvOperation)
    → Quiet (enforce needs blocked info operation)
unfolding enforce
Quiet-enforce needs blocked info operation k n = triple (λ w f.
    (Quiet-lift
        (enforce_no_mc_ga_with_client_pin info operation w.request.permissions
          (blocked || needs.skip_uv))
        k n).run
      w f)

module _ (c : Crypto) where
  Quiet-pin_for :
      (needs : Needs) (blocked : Bool) (info : GetInfo) (proto : PinUvAuthProtocol)
      (operation : UvOperation)
      → Quiet (pin_for c needs blocked info proto operation)
  unfolding pin_for
  Quiet-pin_for needs blocked info proto operation = elim (Bool-cases (is_client_pin operation)) [
    | inl e ↦ rw e (Quiet-bind (Quiet-obtain_pin c info proto _) (λ pin. Quiet-pure))
    | inr e ↦ rw e Quiet-pure
  ]

  Quiet-pin_hash_enc :
      (proto : PinUvAuthProtocol) (secret : List ℕ) (pin : Option (List ℕ))
      → Quiet (lift (pin_hash_enc c proto secret pin))
  unfolding pin_hash_enc
  Quiet-pin_hash_enc proto secret none = Quiet-raise_ctap _
  Quiet-pin_hash_enc proto secret (some pin) = Quiet-lift _

  Quiet-token_request :
      (proto : PinUvAuthProtocol) (key secret : List ℕ) (pin : Option (List ℕ))
      (operation : UvOperation)
      → Quiet (token_request c proto key secret pin operation)
  unfolding token_request
  Quiet-token_request proto key secret pin get_pin_token =
      Quiet-bind (Quiet-pin_hash_enc proto secret pin) (λ hash. Quiet-pure)
  Quiet-token_request proto key secret pin get_token_using_pin =
      Quiet-bind (Quiet-pin_hash_enc proto secret pin) (λ hash k n. triple (λ w f. f))
  Quiet-token_request proto key secret pin get_token_using_uv =
      Quiet-then (Quiet-note _) (λ k n. triple (λ w f. f))
  Quiet-token_request proto key secret pin only_for_shared_secret = Quiet-pure
  Quiet-token_request proto key secret pin legacy_uv = Quiet-pure

  Spent-obtain_shared_secret :
      (proto : PinUvAuthProtocol) (k n : ℕ)
      → Spec (Fine k n) (Fits k n) (obtain_shared_secret c proto) (λ a. Spent k n)
  unfolding obtain_shared_secret
  Spent-obtain_shared_secret proto k n =
      Triple-bind (λ a. Spent k n) (client_pin_spends _ k n)
        (λ r. elim (Option-cases r.key_agreement) [
          | inl e ↦ rw e (Quiet-Spent k n (Quiet-raise_ctap _))
          | inr (key, e) ↦ rw e (Quiet-Spent k n (Quiet-lift _))
        ])

  Fine-after_reply :
      {again : Ceremony LoopExit} (k n : ℕ) (s : Selected) (reply : Result UvError PinResponse)
      → Spec (Fine k n) (Spent k n) again (λ a. Fits k n)
      → Spec
          (Fine k n)
          (λ w. Told reply × Spent k n w)
          (after_reply c again s reply)
          (λ a. Fits k n)
  unfolding after_reply
  Fine-after_reply k n s (ok response) next = triple (λ w p. Spent-Fits k n w p.1)
  Fine-after_reply k n s (err (ctap uv_blocked)) next = triple (λ w p. next.run w p.1)
  Fine-after_reply k n s (err (ctap uv_invalid)) next = triple (λ w p.
      (Triple-bind (λ a. Spent k n) (Quiet-Spent k n (Quiet-attempt (Quiet-client_pin _)))
          (λ reply.
            Triple-then (λ a. Spent k n) (Quiet-Spent k n (Quiet-note _))
              (λ done. elim (Bool-cases (is_zero c (uv_retries_of c reply))) [
                | inl e ↦ rw e next
                | inr e ↦ rw e (Spec-raise (λ w' s. (ctap_told _, Spent-Fits k n w' s)))
              ]))).run
        w p.1)
  Fine-after_reply k n s (err (ctap pin_required)) next =
      triple (λ w p. (ctap_told _, Spent-Fits k n w p.1))
  Fine-after_reply k n s (err (ctap pin_policy_violation)) next =
      triple (λ w p. (ctap_told _, Spent-Fits k n w p.1))
  Fine-after_reply k n s (err (ctap pin_auth_invalid)) next =
      triple (λ w p. (ctap_told _, Spent-Fits k n w p.1))
  Fine-after_reply k n s (err (ctap no_credentials)) next =
      triple (λ w p. (ctap_told _, Spent-Fits k n w p.1))
  Fine-after_reply k n s (err (ctap other)) next =
      triple (λ w p. (ctap_told _, Spent-Fits k n w p.1))
  Fine-after_reply k n s (err (ctap (ctap_code code))) next =
      triple (λ w p. (ctap_told _, Spent-Fits k n w p.1))
  Fine-after_reply k n s (err (platform e)) next =
      triple (λ w p. (platform_told _, Spent-Fits k n w p.1))
  Fine-after_reply k n s (err transport) next = triple (λ w p. ((λ h. cc), Spent-Fits k n w p.1))
  Fine-after_reply k n s (err out_of_rounds) next = triple (λ w p. absurd (p.0 refl))

  Fine-run_operation :
      {again : Bool → GetInfo → Ceremony LoopExit} (needs : Needs) (blocked : Bool) (info : GetInfo)
      (operation : UvOperation) (k n : ℕ)
      → ((b : Bool) (i : GetInfo) → Spec (Fine k n) (Spent k n) (again b i) (λ a. Fits k n))
      → Spec
          (Fine k n)
          (Fits k n)
          (run_operation c again needs blocked info operation)
          (λ a. Fits k n)
  unfolding run_operation
  Fine-run_operation needs blocked info operation k n next =
      elim (Option-cases (select_uv_proto info)) [
        | inl e ↦ rw (e, run_operation) (Quiet-raise_ctap other k n)
        | inr (proto, e) ↦
            rw (e, run_operation)
              (Triple-bind (λ a. Fits k n) (Quiet-pin_for needs blocked info proto operation k n)
                (λ pin.
                  Triple-bind (λ a. Spent k n) (Spent-obtain_shared_secret proto k n)
                    (λ secret.
                      Triple-bind (λ a. Spent k n)
                        (Quiet-Spent k n (Quiet-token_request proto _ _ pin operation))
                        (λ request. elim (Option-cases request) [
                          | inl e' ↦ rw e' (Triple-pure (Spent-Fits k n))
                          | inr (r, e') ↦ rw e' (
                              Triple-bind (λ reply w. Told reply × Spent k n w)
                                (attempt-Told-Spent k n (Quiet-client_pin r))
                                (λ reply.
                                  Fine-after_reply k n
                                    (selection proto secret.0 secret.1 operation info) reply
                                    (next true info)))
                        ]))))
      ]

  Fine-follow :
      {again : Bool → GetInfo → Ceremony LoopExit} (needs : Needs) (blocked : Bool) (info : GetInfo)
      (choice : Choice) (k n : ℕ)
      → ((b : Bool) (i : GetInfo) → Spec (Fine k n) (Spent k n) (again b i) (λ a. Fits k n))
      → Spec (Fine k n) (Fits k n) (follow c again needs blocked info choice) (λ a. Fits k n)
  unfolding follow
  Fine-follow needs blocked info (give_up used) k n next = triple (λ w f. f)
  Fine-follow needs blocked info (go_on chosen) k n next =
      Triple-bind (λ a. Fits k n) (Quiet-enforce needs blocked info chosen k n)
        (λ operation. elim (Bool-cases (is_true info.force_pin_change && is_client_pin operation)) [
          | inl e ↦ rw e (
              Triple-then (λ a. Fits k n) (Quiet-try_to_set_pin c info _ k n)
                (λ done.
                  Triple-bind (λ a. Spent k n) (get_info_spends k n) (λ info'. next blocked info')))
          | inr e ↦ rw e (Fine-run_operation needs blocked info operation k n next)
        ])

  -- With more rounds than replies the loop does not run out.
  pub Fine-uv_loop :
      (fuel : ℕ) (needs : Needs) (blocked : Bool) (info : GetInfo) (k n : ℕ)
      → k < fuel
      → Spec (Fine k n) (Fits k n) (uv_loop c fuel needs blocked info) (λ a. Fits k n)
  unfolding uv_loop uv_round
  Fine-uv_loop zero needs blocked info k n lt = absurd (omega arith)
  Fine-uv_loop (suc fuel) needs blocked info k n lt =
      Triple-bind (λ a. Fits k n) (Quiet-choose_operation needs blocked info k n)
        (λ choice. Fine-follow needs blocked info choice k n (λ b i. triple (λ w s.
          (Spec_weaken {E' = Fine k n} {P' = Fits (k - 1) n} {Q' = λ a. Fits k n}
              (λ e w' (told, f). (told, Fits-weaken (k - 1) n k n w' (omega arith) (omega arith) f))
              (λ w' f. f) (λ a w' f. Fits-weaken (k - 1) n k n w' (omega arith) (omega arith) f)
              (Fine-uv_loop fuel needs b i (k - 1) n (omega (arith, s.0)))).run
            w s.1)))
