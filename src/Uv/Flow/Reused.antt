-- ===== src/Uv/Flow/Reused.antt =====
-- webauthn/pin_uv_auth_token.rs: `user_verification` reuses a token only if the channel or the store
-- has one.
use libwebauthn.Prelude.{
  ℕ, ◌≡◌, refl, sym, subst, ap, ◌∙◌, inl, inr, Bool, true, false, not, ◌&&◌, Option, none, some,
  List, Option-cases, Bool-cases, List-cases, is_some, String, Result, ok, err, arith,
}
use libwebauthn.Uv.Errors.{UvError}
use libwebauthn.Uv.Crypto.{Crypto}
use libwebauthn.Uv.Info.{GetInfo}
use libwebauthn.Uv.Token.{PinUvAuthProtocol, AuthTokenData, get_uv_auth_token}
use libwebauthn.Uv.Records.{TokenRecord}
use libwebauthn.Uv.World.{World, calculate_and_set_uv_auth, ctap2_get_info}
use libwebauthn.Uv.World.Triple.{Triple, triple, Triple-bind, Triple-then, Triple-pure, Outcome}
use libwebauthn.Uv.World.Quiet.{Spec_weaken}
use libwebauthn.Uv.Pin.{select_uv_proto}
use libwebauthn.Uv.Round.{
  UserVerificationRequirement, UsedToken, from_ephemeral, from_persistent, newly_calculated,
  shared_secret_only, no_token, used_legacy_uv,
}
use libwebauthn.Uv.Flow.{
  reuse_or_verify, prepare_request, user_verification, persistent_record, ephemeral_token,
}
use libwebauthn.Uv.Flow.Fresh.{Fresh, Fresh-helper}

-- What a round starts with: the channel's token, whether a persistent one was rejected, and which
-- requests want one.
pub record Facts (kept : Option AuthTokenData) (rejected : Bool) (wanted : GetInfo → Bool → Bool)
    (w : World) : Type 0 where
  pub same_auth : w.auth_data ≡ kept
  pub same_rejected : w.request.persistent_token_rejected ≡ rejected
  pub same_use : w.request.persistent_use ≡ wanted

-- What must have been there for the token that was reused.
abbrev pub Reused :
    Option AuthTokenData → Bool → (GetInfo → Bool → Bool) → UsedToken → World → Type 0
Reused kept rejected wanted from_ephemeral w = Facts kept rejected wanted w × (is_some kept ≡ true)
Reused kept rejected wanted (from_persistent id) w =
    Facts kept rejected wanted w
    × (rejected ≡ false)
    × ((info : GetInfo) × ((has_store : Bool) × (wanted info has_store ≡ true)))
Reused kept rejected wanted used w = Unit {0}

module _ (c : Crypto) (kept : Option AuthTokenData) (rejected : Bool)
    (wanted : GetInfo → Bool → Bool) where
  Facts-calculate :
      (proto : PinUvAuthProtocol) (token : List ℕ)
      → Triple
          (Facts kept rejected wanted)
          (calculate_and_set_uv_auth proto token)
          (λ a. Facts kept rejected wanted)
  unfolding calculate_and_set_uv_auth
  Facts-calculate proto token = triple (λ w f.
      elim (Option-cases (w.request.auth_error proto token)) [
        | inl e ↦
            rw (e, calculate_and_set_uv_auth)
              (record {
                same_auth = f.same_auth;
                same_rejected = f.same_rejected;
                same_use = f.same_use;
              })
        | inr (failure, e) ↦ rw (e, calculate_and_set_uv_auth) tt
      ])

  Outcome-Facts :
      {A : Type 0} (r : Result UvError A) (w : World)
      → Facts kept rejected wanted w
      → Outcome (λ a. Facts kept rejected wanted) (r, w)
  Outcome-Facts (ok a) w f = f
  Outcome-Facts (err e) w f = tt

  Facts-get_info :
      Triple (Facts kept rejected wanted) ctap2_get_info (λ a. Facts kept rejected wanted)
  unfolding ctap2_get_info
  Facts-get_info = triple (λ w f. elim (List-cases w.infos) [
    | inl e ↦ rw (e, ctap2_get_info) tt
    | inr (reply, rest, e) ↦
        rw (e, ctap2_get_info)
          (Outcome-Facts reply _ (record {
            same_auth = f.same_auth;
            same_rejected = f.same_rejected;
            same_use = f.same_use;
          }))
  ])

  Prepared : GetInfo → World → Type 0
  Prepared info w =
      Facts kept rejected wanted w
      × (w.request.wants_persistent_token ≡ wanted info (is_some w.store))

  Prepared-prepare_request :
      (info : GetInfo)
      → Triple (Facts kept rejected wanted) (prepare_request c info) (λ a. Prepared info)
  unfolding prepare_request Prepared
  Prepared-prepare_request info = triple (λ w f. (
    record { same_auth = f.same_auth; same_rejected = f.same_rejected; same_use = f.same_use },
    ap (λ u. u info (is_some w.store)) f.same_use,
  ))

  persistent_record-some :
      (w : World) (info : GetInfo) (found : String × TokenRecord)
      → persistent_record c w info ≡ some found
      → (w.request.wants_persistent_token ≡ true) × (w.request.persistent_token_rejected ≡ false)
  unfolding persistent_record
  persistent_record-some w info found h =
      elim (Bool-cases
        (w.request.wants_persistent_token && not w.request.persistent_token_rejected)) [
          | inl e ↦ (ground arith, ground arith)
          | inr e ↦ ground arith
        ]

  ephemeral_token-some :
      (w : World) (info : GetInfo) (found : PinUvAuthProtocol × List ℕ)
      → ephemeral_token c w info ≡ some found
      → is_some w.auth_data ≡ true
  unfolding ephemeral_token get_uv_auth_token
  ephemeral_token-some w info found h = elim (Option-cases w.auth_data) [
    | inl e ↦ elim (Option-cases (select_uv_proto info)) [
      | inl n ↦ ground (arith, e, n)
      | inr (proto, p) ↦ ground (arith, e, p)
    ]
    | inr (d, e) ↦ rw e refl
  ]

  Fresh-Reused : (used : UsedToken) (w : World) → Fresh used w → Reused kept rejected wanted used w
  Fresh-Reused from_ephemeral w h = absurd h
  Fresh-Reused (from_persistent id) w h = absurd h
  Fresh-Reused shared_secret_only w h = tt
  Fresh-Reused no_token w h = tt
  Fresh-Reused used_legacy_uv w h = tt
  Fresh-Reused (newly_calculated operation) w h = tt

  Reused-reuse_or_verify :
      (has_store : Bool) (requirement : UserVerificationRequirement) (info : GetInfo)
      (found : Option (String × TokenRecord)) (token : Option (PinUvAuthProtocol × List ℕ))
      → ((x : String × TokenRecord)
          → found ≡ some x
          → (wanted info has_store ≡ true) × (rejected ≡ false))
      → ((x : PinUvAuthProtocol × List ℕ) → token ≡ some x → is_some kept ≡ true)
      → Triple
          (Facts kept rejected wanted)
          (reuse_or_verify c requirement info found token)
          (Reused kept rejected wanted)
  unfolding reuse_or_verify
  Reused-reuse_or_verify has_store requirement info (some (id, r)) token h k =
      Triple-then (λ a. Facts kept rejected wanted) (Facts-calculate _ _)
        (λ done.
          Triple-pure (λ w f. (f, (h (id, r) refl).1, (info, (has_store, (h (id, r) refl).0)))))
  Reused-reuse_or_verify has_store requirement info none (some (proto, t)) h k =
      Triple-then (λ a. Facts kept rejected wanted) (Facts-calculate _ _)
        (λ done. Triple-pure (λ w f. (f, k (proto, t) refl)))
  Reused-reuse_or_verify has_store requirement info none none h k =
      Spec_weaken (λ e w x. x) (λ w f. tt) Fresh-Reused (Fresh-helper c requirement info)

  pub Reused-user_verification :
      (requirement : UserVerificationRequirement)
      → Triple
          (Facts kept rejected wanted)
          (user_verification c requirement)
          (Reused kept rejected wanted)
  unfolding user_verification Prepared
  Reused-user_verification requirement =
      Triple-bind (λ a. Facts kept rejected wanted) Facts-get_info
        (λ info.
          Triple-then (λ a. Prepared info) (Prepared-prepare_request info)
            (λ done.
              Triple-bind (λ a v. (a ≡ v) × Prepared info v) (triple (λ v p. (refl, p)))
                (λ w. triple (λ v (same, (f, prepared)).
                  let at_start =
                    subst
                      (λ x.
                        Facts kept rejected wanted x
                        × (x.request.wants_persistent_token ≡ wanted info (is_some x.store)))
                      (sym same) (f, prepared) in
                  (Reused-reuse_or_verify (is_some w.store) requirement info
                      (persistent_record c w info) (ephemeral_token c w info)
                      (λ x e.
                        let (wants, fresh) = persistent_record-some w info x e in
                        (sym at_start.1 ∙ wants, sym at_start.0.same_rejected ∙ fresh))
                      (λ x e.
                        subst (λ a. is_some a ≡ true) at_start.0.same_auth
                          (ephemeral_token-some w info x e))).run
                    v f))))
