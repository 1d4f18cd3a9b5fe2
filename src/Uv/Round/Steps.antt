-- ===== src/Uv/Round/Steps.antt =====
-- webauthn/pin_uv_auth_token.rs: the steps of a round, and what holds after each.
use libwebauthn.Prelude.{
  ℕ, ◌≡◌, refl, ap, ◌∙◌, Bool, true, ◌||◌, Option, List, inl, inr, Option-cases, Bool-cases, Result,
  ok, err, arith,
}
use libwebauthn.Uv.Errors.{PlatformError}
use libwebauthn.Uv.Crypto.{Crypto}
use libwebauthn.Uv.Info.{
  GetInfo, UvOperation, get_token_using_uv, get_token_using_pin, get_pin_token,
  only_for_shared_secret, legacy_uv, uv_operation,
}
use libwebauthn.Uv.Token.{PinUvAuthProtocol}
use libwebauthn.Uv.World.{World, UvRequest, ensure_uv_set, ◌>>◌, ◌>>=◌, of_platform}
use libwebauthn.Uv.World.Triple.{
  Triple, triple, Triple-bind, Triple-then, Triple-raise, Triple-pure, Keeps, Keeps-lift,
  Keeps-note, Anything, Outcome,
}
use libwebauthn.Uv.Pin.Keeps.{Keeps-obtain_pin}
use libwebauthn.Uv.Round.{
  used_legacy_uv, Needs, Choice, give_up, go_on, choose_operation, is_client_pin, prepare_operation,
  downgrade, enforce, enforce_no_mc_ga_with_client_pin, pin_for, token_request,
}

abbrev pub UvSet : UvRequest → Type 0
UvSet request = request.uv_set ≡ true

-- An operation that sets the option has set it.
abbrev pub LegacyIsSet : UvOperation → UvRequest → Type 0
LegacyIsSet operation request = operation ≡ legacy_uv → UvSet request

abbrev pub Chosen : Choice → World → Type 0
Chosen (give_up used) w = (used ≡ used_legacy_uv) × UvSet w.request
Chosen (go_on operation) w = LegacyIsSet operation w.request

Chosen-prepare_legacy :
    (needs : Needs) (info : GetInfo)
    → Triple Anything (prepare_operation needs info legacy_uv) Chosen
unfolding prepare_operation ensure_uv_set ◌>>◌ ◌>>=◌
Chosen-prepare_legacy needs info = triple (λ w p. ground arith)

Chosen-prepare_operation :
    (needs : Needs) (info : GetInfo) (operation : UvOperation)
    → Triple Anything (prepare_operation needs info operation) Chosen
unfolding prepare_operation downgrade
Chosen-prepare_operation needs info legacy_uv = Chosen-prepare_legacy needs info
Chosen-prepare_operation needs info get_token_using_uv = triple (λ w p. ground arith)
Chosen-prepare_operation needs info get_token_using_pin = triple (λ w p. ground arith)
Chosen-prepare_operation needs info get_pin_token = triple (λ w p. ground arith)
Chosen-prepare_operation needs info only_for_shared_secret = triple (λ w p. ground arith)

pub Chosen-choose_operation :
    (needs : Needs) (blocked : Bool) (info : GetInfo)
    → Triple Anything (choose_operation needs blocked info) Chosen
unfolding choose_operation
Chosen-choose_operation needs blocked info =
    elim (Option-cases (uv_operation info (blocked || needs.skip_uv))) [
      | inl e ↦ rw (e, choose_operation) Triple-raise
      | inr (operation, e) ↦
          rw (e, choose_operation) (Chosen-prepare_operation needs info operation)
    ]

-- The check lets an operation pass or takes another one than the legacy option.
enforce-legacy :
    (info : GetInfo) (operation : UvOperation) (permissions : ℕ) (unavailable : Bool)
    → enforce_no_mc_ga_with_client_pin info operation permissions unavailable ≡ ok legacy_uv
    → operation ≡ legacy_uv
unfolding enforce_no_mc_ga_with_client_pin
enforce-legacy info operation permissions unavailable h = ground arith

LegacyIsSet-enforced :
    (info : GetInfo) (operation : UvOperation) (permissions : ℕ) (unavailable : Bool) (w : World)
    (r : Result PlatformError UvOperation)
    → enforce_no_mc_ga_with_client_pin info operation permissions unavailable ≡ r
    → LegacyIsSet operation w.request
    → Outcome (λ passed w'. LegacyIsSet passed w'.request) (of_platform r, w)
LegacyIsSet-enforced info operation permissions unavailable w (err e) h p = tt
LegacyIsSet-enforced info operation permissions unavailable w (ok passed) h p =
    λ e. p (enforce-legacy info operation permissions unavailable (h ∙ ap ok e))

pub LegacyIsSet-enforce :
    (needs : Needs) (blocked : Bool) (info : GetInfo) (operation : UvOperation)
    → Triple
        (λ w. LegacyIsSet operation w.request)
        (enforce needs blocked info operation)
        (λ passed w. LegacyIsSet passed w.request)
unfolding enforce
LegacyIsSet-enforce needs blocked info operation =
    triple (λ w p. LegacyIsSet-enforced info operation _ _ w _ refl p)

module _ (c : Crypto) (F : UvRequest → Type 0) where
  pub Keeps-pin_for :
      (needs : Needs) (blocked : Bool) (info : GetInfo) (proto : PinUvAuthProtocol)
      (operation : UvOperation)
      → Keeps F (pin_for c needs blocked info proto operation)
  unfolding pin_for
  Keeps-pin_for needs blocked info proto operation = elim (Bool-cases (is_client_pin operation)) [
    | inl e ↦ rw e (
        Triple-bind (λ a w. F w.request) (Keeps-obtain_pin c F info proto _)
          (λ pin. Triple-pure (λ w p. p)))
    | inr e ↦ rw e (Triple-pure (λ w p. p))
  ]

  pub Keeps-token_request :
      (proto : PinUvAuthProtocol) (key secret : List ℕ) (pin : Option (List ℕ))
      (operation : UvOperation)
      → Keeps F (token_request c proto key secret pin operation)
  unfolding token_request
  Keeps-token_request proto key secret pin get_pin_token =
      Triple-bind (λ a w. F w.request) (Keeps-lift F _) (λ hash. Triple-pure (λ w p. p))
  Keeps-token_request proto key secret pin get_token_using_pin =
      Triple-bind (λ a w. F w.request) (Keeps-lift F _) (λ hash. triple (λ w p. p))
  Keeps-token_request proto key secret pin get_token_using_uv =
      Triple-then (λ a w. F w.request) (Keeps-note F _) (λ done. triple (λ w p. p))
  Keeps-token_request proto key secret pin only_for_shared_secret = Triple-pure (λ w p. p)
  Keeps-token_request proto key secret pin legacy_uv = Triple-pure (λ w p. p)
