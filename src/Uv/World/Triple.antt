-- ===== src/Uv/World/Triple.antt =====
-- Hoare triples of ceremonies: what holds of the result and of the world after a run that succeeds.
use libwebauthn.Prelude.{◌≡◌, refl, sym, subst, Result, ok, err, List-cases, inl, inr}
use libwebauthn.Uv.Errors.{UvError}
use libwebauthn.Uv.World.{
  World, Ceremony, UvRequest, Call, PinRequest, resume, ◌>>=◌, ◌>>◌, pure, raise, attempt, note,
  lift, ctap2_client_pin, ask_pin,
}

-- `E` of an error and the world it leaves, or `Q` of a value and the world.
abbrev pub Ends :
    {A : Type 0}
    → (UvError → World → Type 0)
    → (A → World → Type 0)
    → Result UvError A × World
    → Type 0
Ends E Q (ok a, w) = Q a w
Ends E Q (err e, w) = E e w

pub record Spec {A : Type 0} (E : UvError → World → Type 0) (P : World → Type 0) (m : Ceremony A)
    (Q : A → World → Type 0) : Type 0 where
  pub run : (w : World) → P w → Ends E Q (m w)

abbrev pub triple :
    {A : Type 0} {E : UvError → World → Type 0} {P : World → Type 0} {m : Ceremony A}
    {Q : A → World → Type 0}
    → ((w : World) → P w → Ends E Q (m w))
    → Spec E P m Q
triple run = record { run = run }

-- Partial correctness: any error will do.
abbrev pub AnyError : UvError → World → Type 0
AnyError e w = Unit {0}

abbrev pub Outcome : {A : Type 0} → (A → World → Type 0) → Result UvError A × World → Type 0
Outcome Q r = Ends AnyError Q r

abbrev pub Triple : {A : Type 0} → (World → Type 0) → Ceremony A → (A → World → Type 0) → Type 0
Triple P m Q = Spec AnyError P m Q

abbrev pub Anything : World → Type 0
Anything w = Unit {0}

Ends-resume :
    {A B : Type 0} (E : UvError → World → Type 0) (R : A → World → Type 0) (Q : B → World → Type 0)
    (f : A → Ceremony B) (r : Result UvError A × World)
    → Ends E R r
    → ((a : A) → Spec E (R a) (f a) Q)
    → Ends E Q (resume r f)
Ends-resume E R Q f (ok a, w) h k = (k a).run w h
Ends-resume E R Q f (err e, w) h k = h

module _ {A B : Type 0} {E : UvError → World → Type 0} {P : World → Type 0} {Q : B → World → Type 0}
    {m : Ceremony A} where
  pub Triple-bind :
      {f : A → Ceremony B} (R : A → World → Type 0)
      → Spec E P m R
      → ((a : A) → Spec E (R a) (f a) Q)
      → Spec E P (m >>= f) Q
  unfolding ◌>>=◌
  Triple-bind {f = f} R first next = triple (λ w p. Ends-resume E R Q f (m w) (first.run w p) next)

  pub Triple-then :
      {k : Ceremony B} (R : A → World → Type 0)
      → Spec E P m R
      → ((a : A) → Spec E (R a) k Q)
      → Spec E P (m >> k) Q
  unfolding ◌>>◌
  Triple-then R first next = Triple-bind R first next

module _ {A : Type 0} {E : UvError → World → Type 0} {P : World → Type 0}
    {Q : A → World → Type 0} where
  pub Triple-pure : {a : A} → ((w : World) → P w → Q a w) → Spec E P (pure a) Q
  Triple-pure h = triple h

  pub Spec-raise : {e : UvError} → ((w : World) → P w → E e w) → Spec E P (raise {A = A} e) Q
  Spec-raise h = triple h

pub Triple-raise :
    {A : Type 0} {P : World → Type 0} {Q : A → World → Type 0} {e : UvError}
    → Triple P (raise {A = A} e) Q
Triple-raise = triple (λ w p. tt)

-- Nothing is asked of the world, and nothing is learnt.
Outcome-Anything : {A : Type 0} (r : Result UvError A × World) → Outcome (λ a. Anything) r
Outcome-Anything (ok a, w) = tt
Outcome-Anything (err e, w) = tt

pub Triple-Anything :
    {A : Type 0} {P : World → Type 0} {m : Ceremony A} → Triple P m (λ a. Anything)
Triple-Anything {m = m} = triple (λ w p. Outcome-Anything (m w))

-- A ceremony that leaves a predicate on the request as it is.
abbrev pub Keeps : {A : Type 0} → (UvRequest → Type 0) → Ceremony A → Type 0
Keeps F m = Triple (λ w. F w.request) m (λ a w. F w.request)

Outcome-lift :
    {A : Type 0} (F : UvRequest → Type 0) (r : Result UvError A) (w : World)
    → F w.request
    → Outcome (λ a w'. F w'.request) (r, w)
Outcome-lift F (ok a) w p = p
Outcome-lift F (err e) w p = tt

pub Keeps-lift : {A : Type 0} (F : UvRequest → Type 0) (r : Result UvError A) → Keeps F (lift r)
Keeps-lift F r = triple (Outcome-lift F r)

pub Keeps-client_pin :
    (F : UvRequest → Type 0) (request : PinRequest) → Keeps F (ctap2_client_pin request)
unfolding ctap2_client_pin
Keeps-client_pin F request = triple (λ w p. elim (List-cases w.pins) [
  | inl e ↦ rw e tt
  | inr (reply, rest, e) ↦ rw e (Outcome-lift F reply _ p)
])

pub Keeps-attempt :
    {A : Type 0} (F : UvRequest → Type 0) (m : Ceremony A)
    → ((w : World) → (m w).1.request ≡ w.request)
    → Keeps F (attempt m)
Keeps-attempt F m same = triple (λ w p. subst F (sym (same w)) p)

pub request-client_pin :
    (request : PinRequest) (w : World) → (ctap2_client_pin request w).1.request ≡ w.request
unfolding ctap2_client_pin
request-client_pin request w = elim (List-cases w.pins) [
  | inl e ↦ rw e refl
  | inr (reply, rest, e) ↦ rw e refl
]

pub request-ask_pin : (call : Call) (w : World) → (ask_pin call w).1.request ≡ w.request
unfolding ask_pin
request-ask_pin call w = elim (List-cases w.entries) [
  | inl e ↦ rw e refl
  | inr (entry, rest, e) ↦ rw e refl
]

pub Keeps-note : (F : UvRequest → Type 0) (call : Call) → Keeps F (note call)
Keeps-note F call = triple (λ w p. p)

Outcome-ask :
    (F : UvRequest → Type 0) (call : Call) (w : World)
    → F w.request
    → Outcome (λ a w'. F w'.request) (ask_pin call w)
unfolding ask_pin
Outcome-ask F call w p = elim (List-cases w.entries) [
  | inl e ↦ rw e p
  | inr (entry, rest, e) ↦ rw e p
]

pub Keeps-ask_pin : (F : UvRequest → Type 0) (call : Call) → Keeps F (ask_pin call)
Keeps-ask_pin F call = triple (Outcome-ask F call)
