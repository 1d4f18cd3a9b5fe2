-- ===== src/Fido2/Assertion/Genuine.antt =====
-- webauthn.rs: the responses of an assertion are all for the rpId that was asked for, and a device
-- cannot make the platform ask without end.
use libwebauthn.Prelude.{
  ℕ, zero, suc, ◌-◌, ◌<◌, ◌≡◌, refl, ap, List, length, All, bytes_eq, bytes_eq→eq, Bool-cases, inl,
  inr, arith,
}
use libwebauthn.Uv.Crypto.{Crypto}
use libwebauthn.Uv.Info.{GetInfo}
use libwebauthn.Uv.World.{World, AssertionReply, lift}
use libwebauthn.Uv.World.Triple.{
  Triple, triple, Triple-bind, Triple-then, Triple-pure, Triple-Anything, Anything, Outcome,
}
use libwebauthn.Uv.World.Quiet.{Spec_weaken}
use libwebauthn.Fido2.Assertion.{
  AssertionOp, Environment, validate_rp_id_hash, assertion_count, next_assertions,
  collect_assertions, get_assertion_fido2,
}

-- A response for the rpId with this hash.
abbrev pub IsFor : List ℕ → AssertionReply → Type 0
IsFor expected reply = reply.rp_id_hash ≡ expected

module _ (expected : List ℕ) where
  IsFor-validate :
      (reply : AssertionReply)
      → Triple Anything (lift (validate_rp_id_hash expected reply)) (λ a w. IsFor expected reply)
  unfolding validate_rp_id_hash
  IsFor-validate reply = elim (Bool-cases (bytes_eq reply.rp_id_hash expected)) [
    | inl e ↦ triple (λ w p. rw e (bytes_eq→eq reply.rp_id_hash expected e))
    | inr e ↦ triple (λ w p. rw e tt)
  ]

  -- As many further responses as were asked for.
  next_assertions-All :
      (n : ℕ)
      → Triple Anything
          (next_assertions expected n)
          (λ replies w. All (IsFor expected) replies × (length replies ≡ n))
  unfolding next_assertions
  next_assertions-All zero = Triple-pure (λ w p. (tt, refl))
  next_assertions-All (suc n) =
      Triple-bind (λ a. Anything) Triple-Anything
        (λ reply.
          Triple-then (λ a w. IsFor expected reply) (IsFor-validate reply)
            (λ checked. triple (λ w here.
              (Triple-bind (λ replies v. All (IsFor expected) replies × (length replies ≡ n))
                  (next_assertions-All n)
                  (λ replies. Triple-pure (λ v (all, many). ((here, all), ap suc many)))).run
                w tt)))

  collected :
      (info : GetInfo) (response : AssertionReply)
      → Triple Anything (collect_assertions expected info response) (λ replies w.
        All (IsFor expected) replies × (length replies ≡ suc (assertion_count info response - 1)))
  unfolding collect_assertions
  collected info response =
      Triple-then (λ a w. IsFor expected response) (IsFor-validate response)
        (λ checked. triple (λ w here.
          (Triple-bind
              (λ replies v.
                All (IsFor expected) replies × (length replies ≡ assertion_count info response - 1))
              (next_assertions-All (assertion_count info response - 1))
              (λ replies. Triple-pure (λ v (all, many). ((here, all), ap suc many)))).run
            w tt))

module _ (c : Crypto) where
  -- An assertion that ends well has a response at least, and every response is for the rpId that was
  -- asked for: its rpIdHash is the SHA-256 of that rpId.
  pub get_assertion_fido2-IsFor :
      (env : Environment) (op : AssertionOp) (w : World)
      → Outcome
          (λ replies w'. All (IsFor (env.sha256 op.rp_id)) replies × (0 < length replies))
          (get_assertion_fido2 c env op w)
  unfolding get_assertion_fido2
  get_assertion_fido2-IsFor env op w =
      (Triple-then {P = Anything} (λ a. Anything) Triple-Anything
          (λ one.
            Triple-bind (λ a. Anything) Triple-Anything
              (λ info.
                Triple-then (λ a. Anything) Triple-Anything
                  (λ built.
                    Triple-bind (λ a. Anything) Triple-Anything
                      (λ allow.
                        Triple-then (λ a. Anything) Triple-Anything
                          (λ limited.
                            Triple-bind (λ a. Anything) Triple-Anything
                              (λ response. genuine env op info response))))))).run
        w tt
    where
      genuine :
          (env : Environment) (op : AssertionOp) (info : GetInfo) (response : AssertionReply)
          → Triple Anything
              (collect_assertions (env.sha256 op.rp_id) info response)
              (λ replies w'. All (IsFor (env.sha256 op.rp_id)) replies × (0 < length replies))
      genuine env op info response =
          Spec_weaken (λ e w h. h) (λ w p. p) (λ replies w (all, many). (all, omega (arith, many)))
            (collected (env.sha256 op.rp_id) info response)
