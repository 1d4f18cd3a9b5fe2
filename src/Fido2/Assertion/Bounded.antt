-- ===== src/Fido2/Assertion/Bounded.antt =====
-- webauthn.rs: a device cannot make the platform collect responses without end.
use libwebauthn.Prelude.{
  ℕ, zero, suc, ◌+◌, ◌-◌, ◌≤◌, ◌≡◌, refl, sym, ap, ◌∙◌, List, [], ◌∷◌, ◌++◌, append-nil,
  append_assoc, length, length-append, length-replicate, replicate, List-cases, inl, inr, Result,
  ok, err, arith,
}
use libwebauthn.Uv.Errors.{UvError}
use libwebauthn.Uv.Info.{GetInfo}
use libwebauthn.Uv.World.{
  World, Call, get_next_assertion, AssertionReply, lift, of_command, send_command,
}
use libwebauthn.Uv.World.Triple.{Spec, triple, Ends, Triple-bind, Triple-then, Triple-pure, Outcome}
use libwebauthn.Uv.World.Quiet.{Spec_weaken}
use libwebauthn.Fido2.Assertion.{
  validate_rp_id_hash, or_else, assertion_count, next_assertions, collect_assertions,
}

-- So many further responses were asked for, after the calls before.
abbrev pub Asked : List Call → ℕ → World → Type 0
Asked calls n w = w.log ≡ calls ++ replicate n get_next_assertion

-- At most so many.
record AskedUpTo (calls : List Call) (n : ℕ) (w : World) : Type 0 where
  pub asked : ℕ
  pub few : asked ≤ n
  pub logged : Asked calls asked w

abbrev AtMost : List Call → ℕ → UvError → World → Type 0
AtMost calls n e w = AskedUpTo calls n w

replicate-suc :
    (calls : List Call) (n : ℕ)
    → (calls ++ get_next_assertion ∷ []) ++ replicate n get_next_assertion
      ≡ calls ++ replicate (suc n) get_next_assertion
replicate-suc calls n =
    append_assoc calls (get_next_assertion ∷ []) (replicate n get_next_assertion)

-- One call more before them.
one_more :
    (calls : List Call) (n : ℕ) (w : World)
    → AskedUpTo (calls ++ get_next_assertion ∷ []) n w
    → AskedUpTo calls (suc n) w
one_more calls n w h = record {
  asked = suc h.asked;
  few = omega (arith, h.few);
  logged = h.logged ∙ replicate-suc calls h.asked;
}

Ends-command :
    {A : Type 0} (E : UvError → World → Type 0) (P : World → Type 0) (r : Result UvError A)
    (w : World)
    → P w
    → ((e : UvError) → E e w)
    → Ends E (λ a. P) (r, w)
Ends-command E P (ok a) w p h = p
Ends-command E P (err e) w p h = h e

module _ (expected : List ℕ) where
  asks_one :
      (calls : List Call) (n : ℕ)
      → Spec
          (AtMost calls (suc n))
          (λ w. w.log ≡ calls)
          (send_command get_next_assertion)
          (λ reply w. w.log ≡ calls ++ get_next_assertion ∷ [])
  unfolding send_command
  asks_one calls n = triple (λ w p.
      let logged = ap (λ l. l ++ get_next_assertion ∷ []) p in
      elim (List-cases w.commands) [
        | inl e ↦ rw (e, send_command) (record { asked = 1; few = omega arith; logged = logged })
        | inr (reply, rest, e) ↦
            rw (e, send_command)
              (Ends-command (AtMost calls (suc n)) (λ w. w.log ≡ calls ++ get_next_assertion ∷ [])
                (of_command reply)
                (record w { log = w.log ++ get_next_assertion ∷ []; commands = rest }) logged
                (λ e. record { asked = 1; few = omega arith; logged = logged }))
      ])

  validates :
      (calls : List Call) (n : ℕ) (reply : AssertionReply)
      → Spec
          (AtMost calls n)
          (λ w. w.log ≡ calls)
          (lift (validate_rp_id_hash expected reply))
          (λ a w. w.log ≡ calls)
  validates calls n reply = triple (λ w p.
      Ends-command (AtMost calls n) (λ w. w.log ≡ calls) (validate_rp_id_hash expected reply) w p
        (λ e. record { asked = 0; few = omega arith; logged = p ∙ sym (append-nil calls) }))

  -- Further responses, as many as are asked for.
  Further : List Call → ℕ → List AssertionReply → World → Type 0
  Further calls n replies w = (length replies ≡ n) × Asked calls n w

  asks_all :
      (n : ℕ) (calls : List Call)
      → Spec (AtMost calls n) (λ w. w.log ≡ calls) (next_assertions expected n) (Further calls n)
  unfolding next_assertions Further
  asks_all zero calls = Triple-pure (λ w p. (refl, p ∙ sym (append-nil calls)))
  asks_all (suc n) calls =
      let calls' = calls ++ get_next_assertion ∷ [] in
      Triple-bind (λ a w. w.log ≡ calls') (asks_one calls n)
        (λ reply.
          Triple-then (λ a w. w.log ≡ calls')
            (Spec_weaken (λ e w h. one_more calls n w h) (λ w p. p) (λ a w p. p)
              (validates calls' n reply))
            (λ checked.
              Triple-bind (Further calls' n)
                (Spec_weaken (λ e w h. one_more calls n w h) (λ w p. p) (λ a w p. p)
                  (asks_all n calls'))
                (λ replies.
                  Triple-pure (λ w (many, logged). (ap suc many, logged ∙ replicate-suc calls n)))))

  collects :
      (info : GetInfo) (response : AssertionReply) (calls : List Call)
      → Spec
          (AtMost calls (assertion_count info response - 1))
          (λ w. w.log ≡ calls)
          (collect_assertions expected info response)
          (λ replies w.
            (length replies ≡ suc (assertion_count info response - 1))
            × Asked calls (assertion_count info response - 1) w)
  unfolding collect_assertions Further
  collects info response calls =
      let further = assertion_count info response - 1 in
      Triple-then (λ a w. w.log ≡ calls) (validates calls further response)
        (λ checked.
          Triple-bind (Further calls further) (asks_all further calls)
            (λ replies. Triple-pure (λ w (many, logged). (ap suc many, logged))))

  -- Within the limit of getInfo, or 255 where it says none.
  within :
      (info : GetInfo) (response : AssertionReply)
      → assertion_count info response - 1 ≤ or_else info.max_credential_count 255 - 1
  within info response = omega arith

  -- The log of a run that ends either way.
  logged_within :
      (calls : List Call) (n limit : ℕ) (r : Result UvError (List AssertionReply) × World)
      → n ≤ limit
      → Ends (AtMost calls n) (λ replies w. (length replies ≡ suc n) × Asked calls n w) r
      → (length r.1.log ≤ length calls + limit)
        × Outcome
            (λ replies w. (length replies ≤ suc limit) × (length replies ≡ suc n) × Asked calls n w)
            r
  logged_within calls n limit (ok replies, w) le (many, logged) = (
    omega (
      arith,
      ap length logged,
      length-append calls (replicate n get_next_assertion),
      length-replicate n get_next_assertion,
    ),
    (omega (arith, many), many, logged),
  )
  logged_within calls n limit (err e, w) le h = (
    omega (
      arith,
      h.few,
      ap length h.logged,
      length-append calls (replicate h.asked get_next_assertion),
      length-replicate h.asked get_next_assertion,
    ),
    tt,
  )

  -- Whatever number of credentials the response claims, and however the collection ends, no more
  -- further responses are asked for than the limit of getInfo allows (255 where it says none), the
  -- first one counted. A collection that ends well has as many responses as were claimed within that
  -- limit, one at least, and each of them but the first was asked for once.
  pub collect_assertions-bounded :
      (info : GetInfo) (response : AssertionReply) (w : World)
      → (length (collect_assertions expected info response w).1.log
          ≤ length w.log + (or_else info.max_credential_count 255 - 1))
        × Outcome
            (λ replies w'.
              (length replies ≤ suc (or_else info.max_credential_count 255 - 1))
              × (length replies ≡ suc (assertion_count info response - 1))
              × Asked w.log (assertion_count info response - 1) w')
            (collect_assertions expected info response w)
  collect_assertions-bounded info response w =
      logged_within w.log (assertion_count info response - 1)
        (or_else info.max_credential_count 255 - 1) (collect_assertions expected info response w)
        (within info response) ((collects info response w.log).run w refl)
