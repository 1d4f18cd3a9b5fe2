-- ===== src/Fido2/Retry/Rounds.antt =====
-- webauthn.rs: the loop around a command goes round three times at most.
use libwebauthn.Prelude.{
  ℕ, zero, suc, ◌+◌, ◌≤◌, ◌<◌, ◌≡◌, ◌≢◌, ◌⊎◌, inl, inr, refl, sym, ◌∙◌, Bool, true, false, Option,
  none, All, length, String, Result, ok, err, arith,
}
use libwebauthn.Uv.Errors.{
  UvError, ctap, platform, transport, out_of_rounds, uv_blocked, uv_invalid, pin_required,
  pin_policy_violation, other, ctap_code, pin_auth_invalid, no_credentials,
}
use libwebauthn.Uv.Crypto.{Crypto}
use libwebauthn.Uv.Info.{GetInfo}
use libwebauthn.Uv.Token.{AuthTokenData}
use libwebauthn.Uv.World.{
  World, Ceremony, AssertionReply, ◌>>=◌, ◌>>◌, attempt, ctap2_client_pin, get_uv_retries,
}
use libwebauthn.Uv.World.Triple.{Spec, triple, Ends, Triple-bind, Triple-then, Spec-raise, Anything}
use libwebauthn.Uv.World.Budget.{Told, Fits, Told-err}
use libwebauthn.Uv.World.Quiet.{
  Spec_weaken, platform_told, ctap_told, Quiet-client_pin, Quiet-attempt,
}
use libwebauthn.Uv.Round.{
  UsedToken, from_ephemeral, from_persistent, newly_calculated, shared_secret_only, no_token,
  used_legacy_uv,
}
use libwebauthn.Uv.Flow.{user_verification}
use libwebauthn.Uv.Flow.Rounds.{Quiet-user_verification}
use libwebauthn.Uv.Flow.Reused.{Facts, Reused, Reused-user_verification}
use libwebauthn.Fido2.Retry.{
  clear_uv_auth_token_store, evict, note_rejected, retry_invalid, handle_errors, Command,
  command_round, command_loop,
}
use libwebauthn.Fido2.Retry.State.{
  rank, NotOut, Ends-both, true_not_false, rank-cleared, rank-rejected, rank_two, Start, After,
  After-announce, After-extensions, After-send,
}

module _ (wanted : GetInfo → Bool → Bool) (calls entries : ℕ) where
  module _ (kept : Option AuthTokenData) (rejected : Bool) where
    -- Another round, from a state of lower rank.
    Goes : ℕ → Ceremony AssertionReply → Type 0
    Goes n again =
        (n' : ℕ) → n' < n → Spec NotOut (Start wanted calls entries n') again (λ a. Anything)

    Told-ephemeral :
        (n : ℕ) (again : Ceremony AssertionReply) (notes : Bool)
        → rank kept rejected ≤ n
        → Goes n again
        → Spec NotOut
            (After wanted calls entries kept rejected from_ephemeral)
            (retry_invalid notes again from_ephemeral)
            (λ a. Anything)
    unfolding retry_invalid clear_uv_auth_token_store ◌>>◌ ◌>>=◌ After Goes
    Told-ephemeral n again notes few next = triple (λ w (fits, (facts, there)).
        (next (rank none rejected) (omega (arith, rank-cleared kept rejected there))).run _
          (record {
            kept = none;
            rejected = rejected;
            facts = record {
              same_auth = refl;
              same_rejected = facts.same_rejected;
              same_use = facts.same_use;
            };
            few = omega arith;
            fits = record {
              infos_told = fits.infos_told;
              pins_told = fits.pins_told;
              calls_left = fits.calls_left;
              entries_left = fits.entries_left;
            };
          }))

    Told-persistent :
        (n : ℕ) (again : Ceremony AssertionReply) (notes : Bool) (id : String)
        → (notes ≡ true) ⊎ ((info : GetInfo) (has_store : Bool) → wanted info has_store ≡ false)
        → rank kept rejected ≤ n
        → Goes n again
        → Spec NotOut
            (After wanted calls entries kept rejected (from_persistent id))
            (retry_invalid notes again (from_persistent id))
            (λ a. Anything)
    unfolding retry_invalid evict note_rejected ◌>>◌ ◌>>=◌ After Goes
    Told-persistent n again false id (inl e) few next = cc
    Told-persistent n again false id (inr never) few next =
        triple (λ w (fits, (facts, fresh, (info, (has_store, e)))).
          absurd (true_not_false (sym e ∙ never info has_store)))
    Told-persistent n again true id allowed few next = triple (λ w (fits, (facts, fresh, there)).
        (next (rank kept true) (omega (arith, rank-rejected kept rejected fresh))).run _ (record {
          kept = kept;
          rejected = true;
          facts = record {
            same_auth = facts.same_auth;
            same_rejected = refl;
            same_use = facts.same_use;
          };
          few = omega arith;
          fits = record {
            infos_told = fits.infos_told;
            pins_told = fits.pins_told;
            calls_left = fits.calls_left;
            entries_left = fits.entries_left;
          };
        }))

    module _ (n : ℕ) (again : Ceremony AssertionReply) (notes : Bool)
        (allowed : (notes ≡ true)
          ⊎ ((info : GetInfo) (has_store : Bool) → wanted info has_store ≡ false))
        (few : rank kept rejected ≤ n) (next : Goes n again) where
      Told-retry :
          (used : UsedToken)
          → Spec NotOut
              (After wanted calls entries kept rejected used)
              (retry_invalid notes again used)
              (λ a. Anything)
      unfolding retry_invalid
      Told-retry from_ephemeral = Told-ephemeral n again notes few next
      Told-retry (from_persistent id) = Told-persistent n again notes id allowed few next
      Told-retry shared_secret_only = Spec-raise (λ w p. ctap_told _)
      Told-retry no_token = Spec-raise (λ w p. ctap_told _)
      Told-retry used_legacy_uv = Spec-raise (λ w p. ctap_told _)
      Told-retry (newly_calculated operation) = Spec-raise (λ w p. ctap_told _)

      Told-uv_retries :
          (used : UsedToken)
          → Spec NotOut
              (After wanted calls entries kept rejected used)
              (attempt (ctap2_client_pin get_uv_retries))
              (λ a. Anything)
      unfolding After
      Told-uv_retries used =
          Spec_weaken (λ e w h. h.0) (λ w p. p.0) (λ a w f. tt)
            (Quiet-attempt (Quiet-client_pin get_uv_retries) calls entries)

      Told-handle_errors :
          (used : UsedToken) (reply : Result UvError AssertionReply)
          → Told reply
          → Spec NotOut
              (After wanted calls entries kept rejected used)
              (handle_errors notes again used reply)
              (λ a. Anything)
      unfolding handle_errors
      Told-handle_errors used (ok a) told = triple (λ w p. tt)
      Told-handle_errors used (err (ctap pin_auth_invalid)) told = Told-retry used
      Told-handle_errors used (err (ctap uv_invalid)) told =
          Triple-bind (λ a. Anything) (Told-uv_retries used)
            (λ reply.
              Triple-then (λ a. Anything) (triple (λ w p. tt))
                (λ done. Spec-raise (λ w p. ctap_told _)))
      Told-handle_errors used (err (ctap uv_blocked)) told = Spec-raise (λ w p. ctap_told _)
      Told-handle_errors used (err (ctap pin_required)) told = Spec-raise (λ w p. ctap_told _)
      Told-handle_errors used (err (ctap pin_policy_violation)) told =
          Spec-raise (λ w p. ctap_told _)
      Told-handle_errors used (err (ctap other)) told = Spec-raise (λ w p. ctap_told _)
      Told-handle_errors used (err (ctap no_credentials)) told = Spec-raise (λ w p. ctap_told _)
      Told-handle_errors used (err (ctap (ctap_code code))) told = Spec-raise (λ w p. ctap_told _)
      Told-handle_errors used (err (platform e)) told = Spec-raise (λ w p. platform_told _)
      Told-handle_errors used (err transport) told = Spec-raise (λ w p. Told-err transport told)
      Told-handle_errors used (err out_of_rounds) told = absurd (told refl)

  module _ (c : Crypto) (m : Command)
      (allowed : (m.notes_rejection ≡ true)
        ⊎ ((info : GetInfo) (has_store : Bool) → wanted info has_store ≡ false)) where
    After-user_verification :
        (kept : Option AuthTokenData) (rejected : Bool)
        → Spec NotOut
            (λ w. Fits calls entries w × Facts kept rejected wanted w)
            (user_verification c m.requirement)
            (After wanted calls entries kept rejected)
    unfolding After
    After-user_verification kept rejected = triple (λ w (fits, facts).
        Ends-both NotOut (λ a. Fits calls entries) (Reused kept rejected wanted)
          (user_verification c m.requirement w)
          ((Spec_weaken {E' = NotOut} {P' = Fits calls entries} {Q' = λ a. Fits calls entries}
              (λ e w' h. h.0) (λ w' f. f) (λ a w' f. f)
              (Quiet-user_verification c m.requirement calls entries)).run
            w fits)
          ((Reused-user_verification c kept rejected wanted m.requirement).run w facts))

    Told-round :
        (n : ℕ) (again : Ceremony AssertionReply)
        → ((n' : ℕ) → n' < n → Spec NotOut (Start wanted calls entries n') again (λ a. Anything))
        → Spec NotOut (Start wanted calls entries n) (command_round c m again) (λ a. Anything)
    unfolding command_round Goes After
    Told-round n again next = triple (λ w start.
        (Triple-bind (After wanted calls entries start.kept start.rejected)
            (After-user_verification start.kept start.rejected)
            (λ used.
              Triple-then (λ a. After wanted calls entries start.kept start.rejected used)
                (After-extensions wanted calls entries start.kept start.rejected used
                  m.extension_error)
                (λ calculated.
                  Triple-then (λ a. After wanted calls entries start.kept start.rejected used)
                    (After-announce wanted calls entries start.kept start.rejected used)
                    (λ announced.
                      Triple-bind
                        (λ r v.
                          Told r × After wanted calls entries start.kept start.rejected used v)
                        (After-send wanted calls entries start.kept start.rejected used m)
                        (λ reply. triple (λ v p.
                          (Told-handle_errors start.kept start.rejected n again m.notes_rejection
                              allowed start.few next used reply p.0).run
                            v p.1)))))).run
          w (start.fits, start.facts))

    Told-loop :
        (fuel n : ℕ)
        → n < fuel
        → Spec NotOut (Start wanted calls entries n) (command_loop c fuel m) (λ a. Anything)
    unfolding command_loop
    Told-loop zero n lt = absurd (omega arith)
    Told-loop (suc fuel) n lt =
        Told-round n (command_loop c fuel m) (λ n' lt'. Told-loop fuel n' (omega arith))

NotOut-Ends :
    {A : Type 0} (r : Result UvError A × World)
    → Ends NotOut (λ a. Anything) r
    → r.0 ≢ err out_of_rounds
NotOut-Ends (ok a, w) h = λ e. cc
NotOut-Ends (err e, w) h = λ g. ground (arith, h)

-- Three rounds are enough for a command, whatever the device answers: if no reply of the device is the
-- error that stands for a loop without fuel, the loop does not end in it. A round goes on only after
-- a token from before was rejected, and that token is not taken again: the caller notes a rejected
-- persistent token on its request, or its request never wants one.
pub command_loop-Told :
    (c : Crypto) (m : Command) (w : World)
    → All Told w.infos
    → All Told w.pins
    → (m.notes_rejection ≡ true)
      ⊎ ((info : GetInfo) (has_store : Bool) → w.request.persistent_use info has_store ≡ false)
    → (command_loop c 3 m w).0 ≢ err out_of_rounds
command_loop-Told c m w infos_told pins_told allowed = NotOut-Ends (command_loop c 3 m w) (
    (Told-loop w.request.persistent_use (length w.infos + length w.pins) (length w.entries) c m
        allowed 3 2 (omega arith)).run
      w
      (record {
        kept = w.auth_data;
        rejected = w.request.persistent_token_rejected;
        facts = record { same_auth = refl; same_rejected = refl; same_use = refl };
        few = rank_two w.auth_data w.request.persistent_token_rejected;
        fits = record {
          infos_told = infos_told;
          pins_told = pins_told;
          calls_left = omega arith;
          entries_left = omega arith;
        };
      }))
