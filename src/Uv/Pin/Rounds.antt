-- ===== src/Uv/Pin/Rounds.antt =====
-- webauthn/pin_uv_auth_token.rs and pin/mod.rs: the dialog that sets a PIN ends, with fuel to spare.
use libwebauthn.Prelude.{
  ℕ, zero, suc, ◌-◌, ◌<◌, refl, ap, Option, none, some, List, length, ltb, leb, Bool-cases,
  Option-cases, inl, inr, Result, ok, err, arith, String,
}
use libwebauthn.Uv.Errors.{UvError, PinRequestReason, PinNotSetReason, authenticator_policy}
use libwebauthn.Uv.Crypto.{Crypto}
use libwebauthn.Uv.Info.{GetInfo, option_of, option_exists}
use libwebauthn.Uv.Token.{PinUvAuthProtocol}
use libwebauthn.Uv.Records.{TokenRecord}
use libwebauthn.Uv.World.{Ceremony, Call, ◌>>=◌}
use libwebauthn.Uv.World.Triple.{Spec, triple, Triple-bind, Spec-raise}
use libwebauthn.Uv.World.Budget.{Told, Fits, Fine, Asked, Fits-weaken, ask_pin_spends}
use libwebauthn.Uv.World.Quiet.{
  Quiet, Quiet-bind, Quiet-pure, Quiet-raise_ctap, Quiet-raise_platform, platform_told, Quiet-lift,
  Quiet-client_pin, Quiet-ask_pin, Quiet-attempt, attempt-Told, Spec_weaken,
}
use libwebauthn.Uv.Pin.{
  obtain_shared_secret, obtain_pin, select_uv_proto, current_pin, pin_change_request, send_new_pin,
  change_pin_internal, after_attempt, set_pin_loop, try_to_set_pin, next_reason, evict, min_length,
}

module _ (c : Crypto) where
  pub Quiet-obtain_shared_secret :
      (proto : PinUvAuthProtocol) → Quiet (obtain_shared_secret c proto)
  unfolding obtain_shared_secret
  Quiet-obtain_shared_secret proto = Quiet-bind (Quiet-client_pin _) (λ r.
      elim (Option-cases r.key_agreement) [
        | inl e ↦ rw e (Quiet-raise_ctap _)
        | inr (key, e) ↦ rw e (Quiet-lift _)
      ])

  pub Quiet-obtain_pin :
      (info : GetInfo) (proto : PinUvAuthProtocol) (reason : PinRequestReason)
      → Quiet (obtain_pin c info proto reason)
  unfolding obtain_pin
  Quiet-obtain_pin info proto reason = Quiet-bind (Quiet-attempt (Quiet-client_pin _)) (λ reply.
      Quiet-bind (Quiet-ask_pin _) (λ entry. elim (Option-cases entry) [
        | inl e ↦ rw e (Quiet-raise_ctap _)
        | inr (pin, e) ↦ rw e Quiet-pure
      ]))

  Quiet-current_pin :
      (info : GetInfo) (proto : PinUvAuthProtocol) → Quiet (current_pin c info proto)
  unfolding current_pin
  Quiet-current_pin info proto = elim (Option-cases info.options) [
    | inl e ↦ rw (e, current_pin) (Quiet-raise_platform _)
    | inr (options, e) ↦ elim (Option-cases (option_of info "clientPin")) [
      | inl e' ↦ rw (e, e', current_pin) (Quiet-raise_platform _)
      | inr (is_set, e') ↦ elim (Bool-cases is_set) [
        | inl b ↦
            rw (e, e', b, current_pin)
              (Quiet-bind (Quiet-obtain_pin info proto authenticator_policy) (λ pin. Quiet-pure))
        | inr b ↦ rw (e, e', b, current_pin) Quiet-pure
      ]
    ]
  ]

  Quiet-pin_change_request :
      (proto : PinUvAuthProtocol) (key secret new_pin_enc : List ℕ) (current : Option (List ℕ))
      → Quiet (pin_change_request c proto key secret new_pin_enc current)
  unfolding pin_change_request
  Quiet-pin_change_request proto key secret new_pin_enc none =
      Quiet-bind (Quiet-lift _) (λ param. Quiet-pure)
  Quiet-pin_change_request proto key secret new_pin_enc (some current) =
      Quiet-bind (Quiet-lift _) (λ hash_enc. Quiet-bind (Quiet-lift _) (λ param. Quiet-pure))

  Quiet-evict : (found : Option (String × TokenRecord)) → Quiet (evict found)
  unfolding evict
  Quiet-evict found k n = triple (λ w f. record {
    infos_told = f.infos_told;
    pins_told = f.pins_told;
    calls_left = f.calls_left;
    entries_left = f.entries_left;
  })

  Quiet-send_new_pin : (info : GetInfo) (new_pin : List ℕ) → Quiet (send_new_pin c info new_pin)
  unfolding send_new_pin
  Quiet-send_new_pin info new_pin =
      Quiet-bind (λ k n. triple (λ w f. f))
        (λ w. elim (Option-cases (select_uv_proto info)) [
          | inl e ↦ rw (e, send_new_pin) (Quiet-raise_ctap _)
          | inr (proto, e) ↦
              rw (e, send_new_pin)
                (Quiet-bind (Quiet-current_pin info proto) (λ current.
                  Quiet-bind (Quiet-obtain_shared_secret proto) (λ secret.
                    Quiet-bind (Quiet-lift _) (λ new_pin_enc.
                      Quiet-bind (Quiet-pin_change_request proto _ _ new_pin_enc current)
                        (λ request. Quiet-bind (Quiet-client_pin _) (λ response. Quiet-evict _))))))
        ])

  Quiet-change_pin_internal :
      (info : GetInfo) (entered : List ℕ) → Quiet (change_pin_internal c info entered)
  unfolding change_pin_internal
  Quiet-change_pin_internal info entered =
      elim (Bool-cases
        (ltb (c.count_chars (c.normalize entered)) (min_length info.min_pin_length))) [
          | inl e ↦ rw e (Quiet-raise_platform _)
          | inr e ↦ elim (Bool-cases (leb 64 (length (c.normalize entered)))) [
            | inl e' ↦ rw (e, e') (Quiet-raise_platform _)
            | inr e' ↦ rw (e, e') (Quiet-send_new_pin info (c.normalize entered))
          ]
        ]

  Fine-after_attempt :
      {again : PinNotSetReason → Ceremony (Unit {0})} (k n : ℕ) (result : Result UvError (Unit {0}))
      → ((reason : PinNotSetReason) → Spec (Fine k n) (Fits k n) (again reason) (λ a. Fits k n))
      → Spec
          (Fine k n)
          (λ w. Told result × Fits k n w)
          (after_attempt c again result)
          (λ a. Fits k n)
  unfolding after_attempt
  Fine-after_attempt k n (ok done) next = triple (λ w p. p.1)
  Fine-after_attempt k n (err e) next = elim (Option-cases (next_reason c e)) [
    | inl h ↦ rw (h, after_attempt) (triple (λ w p. ((λ g. p.0 (ap err g)), p.1)))
    | inr (reason, h) ↦ rw (h, after_attempt) (triple (λ w p. (next reason).run w p.1))
  ]

  -- With more rounds than entries the loop does not run out.
  Fine-set_pin_loop :
      (fuel : ℕ) (info : GetInfo) (reason : PinNotSetReason) (k n : ℕ)
      → n < fuel
      → Spec (Fine k n) (Fits k n) (set_pin_loop c fuel info reason) (λ a. Fits k n)
  unfolding set_pin_loop
  Fine-set_pin_loop zero info reason k n lt = absurd (omega arith)
  Fine-set_pin_loop (suc fuel) info reason k n lt =
      Triple-bind (Asked k n) (ask_pin_spends (Call.pin_not_set reason) k n) (λ entry.
        elim (Option-cases entry) [
          | inl e ↦ rw e (Spec-raise (λ w asked. (platform_told _, asked.0)))
          | inr (pin, e) ↦ rw e (
              triple (λ w asked.
                let (some_left, f) = asked.1 refl in
                (Spec_weaken {P' = Fits k (n - 1)}
                    (λ e w' (told, f').
                      (told, Fits-weaken k (n - 1) k n w' (omega arith) (omega arith) f'))
                    (λ w' f'. f')
                    (λ a w' f'. Fits-weaken k (n - 1) k n w' (omega arith) (omega arith) f')
                    (Triple-bind (λ r w'. Told r × Fits k (n - 1) w')
                      (attempt-Told k (n - 1) (Quiet-change_pin_internal info pin k (n - 1)))
                      (λ result. Fine-after_attempt k (n - 1) result (λ reason'.
                        Fine-set_pin_loop fuel info reason' k (n - 1)
                          (omega (arith, some_left)))))).run
                  w f))
        ])

  pub Quiet-try_to_set_pin :
      (info : GetInfo) (reason : PinNotSetReason) → Quiet (try_to_set_pin c info reason)
  unfolding try_to_set_pin ◌>>=◌
  Quiet-try_to_set_pin info reason k n = elim (Bool-cases (option_exists info "clientPin")) [
    | inl e ↦ rw e (
        triple (λ w f.
          let m = length w.entries in
          (Spec_weaken {P' = Fits k m}
              (λ e w' (told, f'). (told, Fits-weaken k m k n w' (omega arith) f.entries_left f'))
              (λ w' f'. f') (λ a w' f'. Fits-weaken k m k n w' (omega arith) f.entries_left f')
              (Fine-set_pin_loop (suc m) info reason k m (omega arith))).run
            w
            (record {
              infos_told = f.infos_told;
              pins_told = f.pins_told;
              calls_left = f.calls_left;
              entries_left = omega arith;
            })))
    | inr e ↦ rw e (Quiet-pure k n)
  ]
