-- ===== src/Uv/Round/Blocked.antt =====
-- webauthn/pin_uv_auth_token.rs: two rounds of the loop on a device that answers that its built-in
-- verification is blocked.
use libwebauthn.Prelude.{
  ℕ, suc, ◌≡◌, refl, Bool, true, false, ◌&&◌, ◌||◌, Option, some, List, ◌∷◌, is_some, Option-cases,
  inl, inr, Result, ok, err, arith,
}
use libwebauthn.Uv.Errors.{UvError, ctap, uv_blocked}
use libwebauthn.Uv.Crypto.{Crypto}
use libwebauthn.Uv.Info.{
  GetInfo, is_true, UvOperation, get_token_using_uv, only_for_shared_secret, uv_operation,
}
use libwebauthn.Uv.Token.{PinUvAuthProtocol}
use libwebauthn.Uv.World.{
  World, Ceremony, PinRequest, PinResponse, attempt, ◌>>=◌, ◌>>◌, ctap2_client_pin,
}
use libwebauthn.Uv.Pin.{select_uv_proto, obtain_shared_secret}
use libwebauthn.Uv.World.Triple.{Spec, triple, Triple-bind}
use libwebauthn.Uv.Round.{
  required, Needs, LoopExit, early, selected, go_on, prepare_operation, follow, enforce,
  run_operation, pin_for, token_request, after_reply, downgrade, uv_loop, uv_round,
  choose_operation, enforce_no_mc_ga_with_client_pin,
}

-- Nothing fails.
abbrev pub NoError : UvError → World → Type 0
NoError e w = ⊥

abbrev pub Replies : List (Result UvError PinResponse) → World → Type 0
Replies replies w = w.pins ≡ replies

reply_ok :
    (request : PinRequest) (response : PinResponse) (rest : List (Result UvError PinResponse))
    → Spec NoError
        (Replies (ok response ∷ rest))
        (ctap2_client_pin request)
        (λ a w. (a ≡ response) × Replies rest w)
unfolding ctap2_client_pin
reply_ok request response rest = triple (λ w e. rw (e, ctap2_client_pin) (refl, refl))

reply_of :
    (request : PinRequest) (reply : Result UvError PinResponse)
    (rest : List (Result UvError PinResponse))
    → Spec NoError
        (Replies (reply ∷ rest))
        (attempt (ctap2_client_pin request))
        (λ a w. (a ≡ reply) × Replies rest w)
unfolding ctap2_client_pin
reply_of request reply rest = triple (λ w e. rw (e, ctap2_client_pin) (refl, refl))

module _ (c : Crypto) where
  secret_ok :
      (proto : PinUvAuthProtocol) (key token secret : List ℕ) (response : PinResponse)
      (rest : List (Result UvError PinResponse))
      → response.key_agreement ≡ some key
      → c.encapsulate proto key ≡ ok (token, secret)
      → Spec NoError
          (Replies (ok response ∷ rest))
          (obtain_shared_secret c proto)
          (λ a. Replies rest)
  unfolding obtain_shared_secret
  secret_ok proto key token secret response rest has_key encapsulated =
      Triple-bind (λ a w. (a ≡ response) × Replies rest w) (reply_ok _ response rest)
        (λ a. triple (λ w p. rw (p.0, has_key, encapsulated) p.1))

and_false : (b : Bool) → b && false ≡ false
and_false true = refl
and_false false = refl

abbrev pub SecretOnly : LoopExit → World → Type 0
SecretOnly (early used) w = ⊥
SecretOnly (selected s) w = s.operation ≡ only_for_shared_secret

module _ (c : Crypto) (info : GetInfo) (proto : PinUvAuthProtocol) (key token secret : List ℕ)
    (response : PinResponse) (supported : select_uv_proto info ≡ some proto)
    (has_key : response.key_agreement ≡ some key)
    (encapsulated : c.encapsulate proto key ≡ ok (token, secret)) (needs : Needs)
    (is_needed : needs.requirement ≡ required) where
  chosen :
      (blocked : Bool) (operation : UvOperation) (replies : List (Result UvError PinResponse))
      → ((w : World) → prepare_operation needs info operation w ≡ (ok (go_on operation), w))
      → uv_operation info (blocked || needs.skip_uv) ≡ some operation
      → Spec NoError
          (Replies replies)
          (choose_operation needs blocked info)
          (λ a w. (a ≡ go_on operation) × Replies replies w)
  unfolding choose_operation
  chosen blocked operation replies prepared calls =
      triple (λ w e. rw (calls, prepared w, choose_operation) (refl, e))

  operation_run :
      (again : Bool → GetInfo → Ceremony LoopExit) (rest : List (Result UvError PinResponse))
      → Spec NoError
          (Replies (ok response ∷ rest))
          (run_operation c again needs true info only_for_shared_secret)
          SecretOnly
  unfolding run_operation pin_for token_request ◌>>=◌
  operation_run again rest =
      rw (supported, run_operation)
        (triple (λ w e.
          (Triple-bind (λ a. Replies rest)
              (secret_ok c proto key token secret response rest has_key encapsulated)
              (λ a. triple (λ w' e'. refl))).run
            w e))

  secret_follow :
      (again : Bool → GetInfo → Ceremony LoopExit) (rest : List (Result UvError PinResponse))
      → Spec NoError
          (Replies (ok response ∷ rest))
          (follow c again needs true info (go_on only_for_shared_secret))
          SecretOnly
  unfolding follow enforce enforce_no_mc_ga_with_client_pin ◌>>=◌
  secret_follow again rest =
      triple
        (λ w e. rw (and_false (is_true info.force_pin_change)) ((operation_run again rest).run w e))

  secret_round :
      (again : Bool → GetInfo → Ceremony LoopExit) (rest : List (Result UvError PinResponse))
      → uv_operation info true ≡ some only_for_shared_secret
      → Spec NoError (Replies (ok response ∷ rest)) (uv_round c again needs true info) SecretOnly
  unfolding uv_round prepare_operation downgrade
  secret_round again rest calls =
      Triple-bind (λ a w. (a ≡ go_on only_for_shared_secret) × Replies (ok response ∷ rest) w)
        (chosen true only_for_shared_secret _ (λ w. rw is_needed refl) calls)
        (λ a. triple (λ w p. rw p.0 ((secret_follow again rest).run w p.1)))

  asks_uv :
      (public_key shared : List ℕ) (pin : Option (List ℕ))
      (replies : List (Result UvError PinResponse))
      → Spec NoError
          (Replies replies)
          (token_request c proto public_key shared pin get_token_using_uv)
          (λ request w. (is_some request ≡ true) × Replies replies w)
  unfolding token_request ◌>>=◌ ◌>>◌
  asks_uv public_key shared pin replies = triple (λ w e. (refl, e))

  uv_run :
      (again : Bool → GetInfo → Ceremony LoopExit) (rest : List (Result UvError PinResponse))
      → Spec NoError (Replies rest) (again true info) SecretOnly
      → Spec NoError
          (Replies (ok response ∷ err (ctap uv_blocked) ∷ rest))
          (run_operation c again needs false info get_token_using_uv)
          SecretOnly
  unfolding run_operation pin_for token_request after_reply
  uv_run again rest next =
      rw (supported, run_operation)
        (Triple-bind (λ a. Replies _) (triple (λ w e. e))
          (λ pin.
            Triple-bind (λ a. Replies _)
              (secret_ok c proto key token secret response _ has_key encapsulated)
              (λ a.
                Triple-bind
                  (λ request w. (is_some request ≡ true) × Replies (err (ctap uv_blocked) ∷ rest) w)
                  (asks_uv a.0 a.1 pin _)
                  (λ request. elim (Option-cases request) [
                    | inl e ↦ rw e (triple (λ w p. absurd (ground (arith, p.0))))
                    | inr (r, e) ↦ rw e (
                        triple (λ w p.
                          (Triple-bind
                              (λ reply w'. (reply ≡ err (ctap uv_blocked)) × Replies rest w')
                              (reply_of r _ rest)
                              (λ reply. triple (λ w' p'. rw p'.0 (next.run w' p'.1)))).run
                            w p.1))
                  ]))))

  uv_follow :
      (again : Bool → GetInfo → Ceremony LoopExit) (rest : List (Result UvError PinResponse))
      → Spec NoError (Replies rest) (again true info) SecretOnly
      → Spec NoError
          (Replies (ok response ∷ err (ctap uv_blocked) ∷ rest))
          (follow c again needs false info (go_on get_token_using_uv))
          SecretOnly
  unfolding follow enforce enforce_no_mc_ga_with_client_pin ◌>>=◌
  uv_follow again rest next =
      triple
        (λ w e. rw (and_false (is_true info.force_pin_change)) ((uv_run again rest next).run w e))

  -- Two rounds: verification that the device answers is blocked, and then the shared secret alone.
  pub blocked_loop :
      (fuel : ℕ) (rest : List (Result UvError PinResponse))
      → needs.skip_uv ≡ false
      → uv_operation info false ≡ some get_token_using_uv
      → uv_operation info true ≡ some only_for_shared_secret
      → Spec NoError
          (Replies (ok response ∷ err (ctap uv_blocked) ∷ ok response ∷ rest))
          (uv_loop c (suc (suc fuel)) needs false info)
          SecretOnly
  unfolding uv_loop uv_round prepare_operation downgrade
  blocked_loop fuel rest can_use free blocked =
      Triple-bind (λ a w. (a ≡ go_on get_token_using_uv) × Replies _ w)
        (chosen false get_token_using_uv _ (λ w. rw is_needed refl) (rw can_use free))
        (λ a. triple (λ w p. rw p.0 (
          (uv_follow (uv_loop c (suc fuel) needs) (ok response ∷ rest)
              (secret_round (uv_loop c fuel needs) rest blocked)).run
            w p.1)))
