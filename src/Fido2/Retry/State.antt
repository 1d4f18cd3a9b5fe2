-- ===== src/Fido2/Retry/State.antt =====
-- webauthn.rs: the state of the loop around a command, and the steps of a round that keep it.
use libwebauthn.Prelude.{
  ℕ, ◌+◌, ◌≤◌, ◌<◌, ◌≡◌, ◌≢◌, inl, inr, Bool, true, false, not, Option, none, some, List, is_some,
  List-cases, Result, ok, err, arith,
}
use libwebauthn.Uv.Errors.{
  UvError, CommandError, device_error, transport_error, PlatformError, out_of_rounds,
}
use libwebauthn.Uv.Info.{
  GetInfo, get_token_using_uv, get_token_using_pin, get_pin_token, only_for_shared_secret,
  legacy_uv,
}
use libwebauthn.Uv.Token.{AuthTokenData}
use libwebauthn.Uv.World.{World, Call, AssertionReply, send_command, of_command}
use libwebauthn.Uv.World.Triple.{Spec, triple, Ends, Outcome}
use libwebauthn.Uv.World.Budget.{Told, Fits}
use libwebauthn.Uv.World.Quiet.{platform_told}
use libwebauthn.Uv.Round.{
  UsedToken, from_ephemeral, from_persistent, newly_calculated, shared_secret_only, no_token,
  used_legacy_uv,
}
use libwebauthn.Uv.Flow.Reused.{Facts, Reused}
use libwebauthn.Fido2.Retry.{
  outcome_of, check_extensions, calculate_extensions, announce, Command, send,
}

-- The rounds that may still follow: one for a token of the channel, one for a persistent token that
-- was not rejected yet.
flag : Bool → ℕ
flag true = 1
flag false = 0

unfoldable pub rank : Option AuthTokenData → Bool → ℕ
unfolding flag
rank kept rejected = flag (is_some kept) + flag (not rejected)

abbrev pub NotOut : UvError → World → Type 0
NotOut e w = e ≢ out_of_rounds

pub Ends-both :
    {A : Type 0} (E : UvError → World → Type 0) (Q R : A → World → Type 0)
    (r : Result UvError A × World)
    → Ends E Q r
    → Outcome R r
    → Ends E (λ a w. Q a w × R a w) r
Ends-both E Q R (ok a, w) q p = (q, p)
Ends-both E Q R (err e, w) q p = q

pub true_not_false : true ≡ false → ⊥
true_not_false e = cc

of_command-Told : {A : Type 0} (r : Result CommandError A) → Told (of_command r)
of_command-Told (ok a) = λ e. cc
of_command-Told (err (device_error e)) = λ h. cc
of_command-Told (err transport_error) = λ h. cc

pub rank-cleared :
    (kept : Option AuthTokenData) (rejected : Bool)
    → is_some kept ≡ true
    → rank none rejected < rank kept rejected
unfolding rank flag
rank-cleared kept rejected h = rw h (omega arith)

pub rank-rejected :
    (kept : Option AuthTokenData) (rejected : Bool)
    → rejected ≡ false
    → rank kept true < rank kept rejected
unfolding rank flag
rank-rejected kept rejected h = rw h (omega arith)

pub rank_two : (kept : Option AuthTokenData) (rejected : Bool) → rank kept rejected ≤ 2
unfolding rank flag
rank_two none true = omega arith
rank_two none false = omega arith
rank_two (some d) true = omega arith
rank_two (some d) false = omega arith

module _ (wanted : GetInfo → Bool → Bool) (calls entries : ℕ) where
  -- The state at the start of a round.
  pub record Start (n : ℕ) (w : World) : Type 0 where
    pub kept : Option AuthTokenData
    pub rejected : Bool
    pub facts : Facts kept rejected wanted w
    pub few : rank kept rejected ≤ n
    pub fits : Fits calls entries w

  module _ (kept : Option AuthTokenData) (rejected : Bool) where
    -- The state after user verification.
    unfoldable pub After : UsedToken → World → Type 0
    After used w = Fits calls entries w × Reused kept rejected wanted used w

    Fits-sent :
        (w : World) (log : List Call) (commands : List (Result CommandError AssertionReply))
        → Fits calls entries w
        → Fits calls entries (record w { log = log; commands = commands })
    Fits-sent w log commands f = record {
      infos_told = f.infos_told;
      pins_told = f.pins_told;
      calls_left = f.calls_left;
      entries_left = f.entries_left;
    }

    Facts-sent :
        (w : World) (log : List Call) (commands : List (Result CommandError AssertionReply))
        → Facts kept rejected wanted w
        → Facts kept rejected wanted (record w { log = log; commands = commands })
    Facts-sent w log commands f = record {
      same_auth = f.same_auth;
      same_rejected = f.same_rejected;
      same_use = f.same_use;
    }

    After-sent :
        (used : UsedToken) (w : World) (log : List Call)
        (commands : List (Result CommandError AssertionReply))
        → After used w
        → After used (record w { log = log; commands = commands })
    unfolding After
    After-sent from_ephemeral w log commands (f, (facts, there)) =
        (Fits-sent w log commands f, (Facts-sent w log commands facts, there))
    After-sent (from_persistent id) w log commands (f, (facts, fresh, there)) =
        (Fits-sent w log commands f, (Facts-sent w log commands facts, fresh, there))
    After-sent shared_secret_only w log commands (f, r) = (Fits-sent w log commands f, tt)
    After-sent no_token w log commands (f, r) = (Fits-sent w log commands f, tt)
    After-sent used_legacy_uv w log commands (f, r) = (Fits-sent w log commands f, tt)
    After-sent (newly_calculated operation) w log commands (f, r) = (Fits-sent w log commands f, tt)

    pub After-announce :
        (used : UsedToken) → Spec NotOut (After used) (announce used) (λ a. After used)
    unfolding announce
    After-announce from_ephemeral = triple (λ w p. After-sent from_ephemeral w _ w.commands p)
    After-announce (from_persistent id) =
        triple (λ w p. After-sent (from_persistent id) w _ w.commands p)
    After-announce shared_secret_only =
        triple (λ w p. After-sent shared_secret_only w _ w.commands p)
    After-announce no_token = triple (λ w p. After-sent no_token w _ w.commands p)
    After-announce used_legacy_uv = triple (λ w p. After-sent used_legacy_uv w _ w.commands p)
    After-announce (newly_calculated get_token_using_uv) = triple (λ w p. p)
    After-announce (newly_calculated get_token_using_pin) =
        triple (λ w p. After-sent (newly_calculated get_token_using_pin) w _ w.commands p)
    After-announce (newly_calculated get_pin_token) =
        triple (λ w p. After-sent (newly_calculated get_pin_token) w _ w.commands p)
    After-announce (newly_calculated only_for_shared_secret) =
        triple (λ w p. After-sent (newly_calculated only_for_shared_secret) w _ w.commands p)
    After-announce (newly_calculated legacy_uv) =
        triple (λ w p. After-sent (newly_calculated legacy_uv) w _ w.commands p)

    Told-outcome :
        (P : World → Type 0) (w : World) (failed : Option PlatformError)
        → P w
        → Ends NotOut (λ a. P) (outcome_of failed, w)
    unfolding outcome_of
    Told-outcome P w none p = p
    Told-outcome P w (some failure) p = platform_told failure

    Told-check :
        (f : AuthTokenData → Option PlatformError) (P : World → Type 0) (w : World)
        (d : Option AuthTokenData)
        → P w
        → Ends NotOut (λ a. P) (check_extensions f d, w)
    unfolding check_extensions
    Told-check f P w none p = p
    Told-check f P w (some d) p = Told-outcome P w (f d) p

    pub After-extensions :
        (used : UsedToken) (f : AuthTokenData → Option PlatformError)
        → Spec NotOut (After used) (calculate_extensions f) (λ a. After used)
    unfolding calculate_extensions
    After-extensions used f = triple (λ w p. Told-check f (After used) w w.auth_data p)

    pub After-send :
        (used : UsedToken) (m : Command)
        → Spec NotOut (After used) (send m) (λ r w. Told r × After used w)
    unfolding send send_command
    After-send used m = triple (λ w p. elim (List-cases w.commands) [
      | inl e ↦ rw (e, send_command) ((λ h. cc), After-sent used w _ w.commands p)
      | inr (reply, rest, e) ↦
          rw (e, send_command) (of_command-Told reply, After-sent used w _ rest p)
    ])
