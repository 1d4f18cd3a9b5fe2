-- ===== src/Uv/Round/Exit.antt =====
-- webauthn/pin_uv_auth_token.rs: what holds when the loop of `user_verification_helper` ends.
use libwebauthn.Prelude.{
  ℕ, zero, suc, ◌≡◌, Bool, true, ◌&&◌, inl, inr, Option-cases, Bool-cases, Result, ok, err,
}
use libwebauthn.Uv.Errors.{
  UvError, transport, platform, out_of_rounds, ctap, uv_blocked, uv_invalid, pin_required,
  pin_policy_violation, pin_auth_invalid, no_credentials, other, ctap_code,
}
use libwebauthn.Uv.Crypto.{Crypto}
use libwebauthn.Uv.Info.{GetInfo, UvOperation, is_true}
use libwebauthn.Uv.World.{World, Ceremony, PinResponse}
use libwebauthn.Uv.World.Triple.{
  Triple, triple, Triple-bind, Triple-then, Triple-raise, Triple-pure, Triple-Anything,
  Keeps-attempt, request-client_pin, Anything,
}
use libwebauthn.Uv.Pin.{select_uv_proto}
use libwebauthn.Uv.Pin.Keeps.{Keeps-obtain_shared_secret}
use libwebauthn.Uv.Round.{
  used_legacy_uv, LoopExit, early, selected, Needs, Selected, Choice, give_up, go_on, uv_round,
  uv_loop, after_reply, run_operation, follow, selection, uv_retries_of, is_zero, is_client_pin,
}
use libwebauthn.Uv.Round.Steps.{
  LegacyIsSet, UvSet, Chosen, Chosen-choose_operation, LegacyIsSet-enforce, Keeps-pin_for,
  Keeps-token_request,
}

-- How the loop leaves the request: an early return, and an end with the legacy operation, have set
-- the option.
abbrev pub Ended : LoopExit → World → Type 0
Ended (early used) w = (used ≡ used_legacy_uv) × UvSet w.request
Ended (selected s) w = LegacyIsSet s.operation w.request

module _ (c : Crypto) where
  Ended-after_reply :
      {again : Ceremony LoopExit} (s : Selected) (reply : Result UvError PinResponse)
      → Triple Anything again Ended
      → Triple (λ w. LegacyIsSet s.operation w.request) (after_reply c again s reply) Ended
  unfolding after_reply
  Ended-after_reply s (ok response) next = Triple-pure (λ w p. p)
  Ended-after_reply s (err (ctap uv_blocked)) next = triple (λ w p. next.run w tt)
  Ended-after_reply s (err (ctap uv_invalid)) next =
      Triple-bind (λ a. Anything) Triple-Anything
        (λ reply.
          Triple-then (λ a. Anything) Triple-Anything
            (λ done. elim (Bool-cases (is_zero c (uv_retries_of c reply))) [
              | inl e ↦ rw e next
              | inr e ↦ rw e Triple-raise
            ]))
  Ended-after_reply s (err (ctap pin_required)) next = Triple-raise
  Ended-after_reply s (err (ctap pin_policy_violation)) next = Triple-raise
  Ended-after_reply s (err (ctap pin_auth_invalid)) next = Triple-raise
  Ended-after_reply s (err (ctap no_credentials)) next = Triple-raise
  Ended-after_reply s (err (ctap other)) next = Triple-raise
  Ended-after_reply s (err (ctap (ctap_code n))) next = Triple-raise
  Ended-after_reply s (err (platform e)) next = Triple-raise
  Ended-after_reply s (err transport) next = Triple-raise
  Ended-after_reply s (err out_of_rounds) next = Triple-raise

  Ended-run_operation :
      {again : Bool → GetInfo → Ceremony LoopExit} (needs : Needs) (blocked : Bool) (info : GetInfo)
      (operation : UvOperation)
      → ((b : Bool) (i : GetInfo) → Triple Anything (again b i) Ended)
      → Triple
          (λ w. LegacyIsSet operation w.request)
          (run_operation c again needs blocked info operation)
          Ended
  unfolding run_operation
  Ended-run_operation {again = again} needs blocked info operation next =
      elim (Option-cases (select_uv_proto info)) [
        | inl e ↦ rw (e, run_operation) Triple-raise
        | inr (proto, e) ↦
            rw (e, run_operation)
              (let F = LegacyIsSet operation in
                Triple-bind (λ a w. F w.request)
                  (Keeps-pin_for c F needs blocked info proto operation)
                  (λ pin.
                    Triple-bind (λ a w. F w.request) (Keeps-obtain_shared_secret c F proto)
                      (λ secret.
                        Triple-bind (λ a w. F w.request)
                          (Keeps-token_request c F proto _ _ pin operation)
                          (λ request. elim (Option-cases request) [
                            | inl e ↦ rw e (Triple-pure (λ w p. p))
                            | inr (r, e) ↦ rw e (
                                Triple-bind (λ a w. F w.request)
                                  (Keeps-attempt F _ (request-client_pin r))
                                  (λ reply.
                                    Ended-after_reply
                                      (selection proto secret.0 secret.1 operation info) reply
                                      (next true info)))
                          ]))))
      ]

  Ended-follow :
      {again : Bool → GetInfo → Ceremony LoopExit} (needs : Needs) (blocked : Bool) (info : GetInfo)
      (choice : Choice)
      → ((b : Bool) (i : GetInfo) → Triple Anything (again b i) Ended)
      → Triple (Chosen choice) (follow c again needs blocked info choice) Ended
  unfolding follow
  Ended-follow needs blocked info (give_up used) next = Triple-pure (λ w p. p)
  Ended-follow needs blocked info (go_on chosen) next =
      Triple-bind (λ passed w. LegacyIsSet passed w.request)
        (LegacyIsSet-enforce needs blocked info chosen)
        (λ operation. elim (Bool-cases (is_true info.force_pin_change && is_client_pin operation)) [
          | inl e ↦ rw e (
              Triple-then (λ a. Anything) Triple-Anything
                (λ done. Triple-bind (λ a. Anything) Triple-Anything (λ info'. next blocked info')))
          | inr e ↦ rw e (Ended-run_operation needs blocked info operation next)
        ])

  Ended-uv_round :
      {again : Bool → GetInfo → Ceremony LoopExit} (needs : Needs) (blocked : Bool) (info : GetInfo)
      → ((b : Bool) (i : GetInfo) → Triple Anything (again b i) Ended)
      → Triple Anything (uv_round c again needs blocked info) Ended
  unfolding uv_round
  Ended-uv_round needs blocked info next =
      Triple-bind Chosen (Chosen-choose_operation needs blocked info)
        (λ choice. Ended-follow needs blocked info choice next)

  pub Ended-uv_loop :
      (fuel : ℕ) (needs : Needs) (blocked : Bool) (info : GetInfo)
      → Triple Anything (uv_loop c fuel needs blocked info) Ended
  unfolding uv_loop
  Ended-uv_loop zero needs blocked info = Triple-raise
  Ended-uv_loop (suc fuel) needs blocked info =
      Ended-uv_round needs blocked info (Ended-uv_loop fuel needs)
