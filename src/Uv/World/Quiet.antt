-- ===== src/Uv/World/Quiet.antt =====
-- Ceremonies that use up replies and entries, and end in no error that stands for a loop without fuel.
use libwebauthn.Prelude.{ℕ, ◌-◌, ◌≢◌, Result, ok, err, arith}
use libwebauthn.Uv.Errors.{UvError, CtapError, ctap, PlatformError, platform, out_of_rounds}
use libwebauthn.Uv.World.{
  World, Ceremony, Call, PinRequest, ◌>>=◌, ◌>>◌, attempt, pure, raise, lift, of_platform, note,
  ctap2_client_pin, ask_pin,
}
use libwebauthn.Uv.World.Triple.{Spec, triple, Ends, Triple-bind, Triple-then}
use libwebauthn.Uv.World.Budget.{
  Told, Fits, Fine, Spent, Fits-weaken, client_pin_spends, ask_pin_spends,
}

abbrev pub Quiet : {A : Type 0} → Ceremony A → Type 0
Quiet m = (k n : ℕ) → Spec (Fine k n) (Fits k n) m (λ a. Fits k n)

Ends-weaken :
    {A : Type 0} {E E' : UvError → World → Type 0} {Q Q' : A → World → Type 0}
    (r : Result UvError A × World)
    → ((e : UvError) (w : World) → E e w → E' e w)
    → ((a : A) (w : World) → Q a w → Q' a w)
    → Ends E Q r
    → Ends E' Q' r
Ends-weaken (ok a, w) f h p = h a w p
Ends-weaken (err e, w) f h p = f e w p

-- Quiet ceremonies: they may use replies and entries up.
pub Spec_weaken :
    {A : Type 0} {m : Ceremony A} {E E' : UvError → World → Type 0} {P P' : World → Type 0}
    {Q Q' : A → World → Type 0}
    → ((e : UvError) (w : World) → E e w → E' e w)
    → ((w : World) → P' w → P w)
    → ((a : A) (w : World) → Q a w → Q' a w)
    → Spec E P m Q
    → Spec E' P' m Q'
Spec_weaken {m = m} f g h s = triple (λ w p. Ends-weaken (m w) f h (s.run w (g w p)))

pub Quiet-Spent :
    {A : Type 0} {m : Ceremony A} (k n : ℕ)
    → Quiet m
    → Spec (Fine k n) (Spent k n) m (λ a. Spent k n)
Quiet-Spent k n q = triple (λ w p.
    (Spec_weaken {P' = Spent k n}
        (λ e w' (told, f). (told, Fits-weaken (k - 1) n k n w' (omega arith) (omega arith) f))
        (λ w' (lt, f). f) (λ a w' f. (p.0, f)) (q (k - 1) n)).run
      w p)

module _ {A B : Type 0} {m : Ceremony A} where
  pub Quiet-bind : {f : A → Ceremony B} → Quiet m → ((a : A) → Quiet (f a)) → Quiet (m >>= f)
  Quiet-bind first next k n = Triple-bind (λ a. Fits k n) (first k n) (λ a. next a k n)

  pub Quiet-then : {f : Ceremony B} → Quiet m → Quiet f → Quiet (m >> f)
  Quiet-then first next k n = Triple-then (λ a. Fits k n) (first k n) (λ a. next k n)

pub Quiet-pure : {A : Type 0} {a : A} → Quiet (pure a)
Quiet-pure k n = triple (λ w f. f)

pub Quiet-raise : {A : Type 0} (e : UvError) → e ≢ out_of_rounds → Quiet (raise {A = A} e)
Quiet-raise e told k n = triple (λ w f. (told, f))

pub ctap_told : (e : CtapError) → ctap e ≢ out_of_rounds
ctap_told e h = cc

pub platform_told : (e : PlatformError) → platform e ≢ out_of_rounds
platform_told e h = cc

pub Quiet-raise_ctap : {A : Type 0} (e : CtapError) → Quiet (raise {A = A} (ctap e))
Quiet-raise_ctap e = Quiet-raise _ (ctap_told e)

pub Quiet-raise_platform : {A : Type 0} (e : PlatformError) → Quiet (raise {A = A} (platform e))
Quiet-raise_platform e = Quiet-raise _ (platform_told e)

Fine-platform :
    {A : Type 0} (r : Result PlatformError A) (k n : ℕ) (w : World)
    → Fits k n w
    → Ends (Fine k n) (λ a. Fits k n) (of_platform r, w)
Fine-platform (ok a) k n w f = f
Fine-platform (err e) k n w f = ((λ h. cc), f)

pub Quiet-lift : {A : Type 0} (r : Result PlatformError A) → Quiet (lift (of_platform r))
Quiet-lift r k n = triple (λ w f. Fine-platform r k n w f)

pub Quiet-client_pin : (request : PinRequest) → Quiet (ctap2_client_pin request)
Quiet-client_pin request k n =
    Spec_weaken (λ e w h. h) (λ w f. f)
      (λ a w s. Fits-weaken _ _ _ _ w (omega arith) (omega arith) s.1)
      (client_pin_spends request k n)

pub Quiet-ask_pin : (call : Call) → Quiet (ask_pin call)
Quiet-ask_pin call k n =
    Spec_weaken (λ e w h. h) (λ w f. f) (λ a w asked. asked.0) (ask_pin_spends call k n)

Told-attempt :
    {A : Type 0} (k n : ℕ) (r : Result UvError A × World)
    → Ends (Fine k n) (λ a. Fits k n) r
    → Told r.0 × Fits k n r.1
Told-attempt k n (ok a, w) h = ((λ e. cc), h)
Told-attempt k n (err e, w) h = ((λ g. ground (arith, h.0)), h.1)

-- The error that an attempt catches is none of a loop without fuel.
pub attempt-Told :
    {A : Type 0} {m : Ceremony A} (k n : ℕ)
    → Spec (Fine k n) (Fits k n) m (λ a. Fits k n)
    → Spec (Fine k n) (Fits k n) (attempt m) (λ r w. Told r × Fits k n w)
attempt-Told {m = m} k n s = triple (λ w f. Told-attempt k n (m w) (s.run w f))

pub Quiet-attempt : {A : Type 0} {m : Ceremony A} → Quiet m → Quiet (attempt m)
Quiet-attempt q k n = Spec_weaken (λ e w h. h) (λ w f. f) (λ a w r. r.1) (attempt-Told k n (q k n))

pub attempt-Told-Spent :
    {A : Type 0} {m : Ceremony A} (k n : ℕ)
    → Quiet m
    → Spec (Fine k n) (Spent k n) (attempt m) (λ r w. Told r × Spent k n w)
attempt-Told-Spent k n q = triple (λ w p.
    (Spec_weaken {E' = Fine k n} {P' = Spent k n} {Q' = λ r w'. Told r × Spent k n w'}
        (λ e w' (told, f). (told, Fits-weaken (k - 1) n k n w' (omega arith) (omega arith) f))
        (λ w' (lt, f). f) (λ a w' (told, f). (told, (p.0, f)))
        (attempt-Told (k - 1) n (q (k - 1) n))).run
      w p)

pub Quiet-note : (call : Call) → Quiet (note call)
Quiet-note call k n = triple (λ w f. record {
  infos_told = f.infos_told;
  pins_told = f.pins_told;
  calls_left = f.calls_left;
  entries_left = f.entries_left;
})

pub Spent-Fits : (k n : ℕ) (w : World) → Spent k n w → Fits k n w
Spent-Fits k n w (lt, f) = Fits-weaken (k - 1) n k n w (omega arith) (omega arith) f
