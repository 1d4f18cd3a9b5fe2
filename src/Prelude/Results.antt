-- ===== src/Prelude/Results.antt =====
-- Rust's `Result<A, E>`, with the `?` operator as a bind.
use mathlib.Core.Path.{◌≡◌, refl}
use mathlib.Core.Option.{Option, none, some}
use mathlib.Core.Logic.{◌⊎◌, inl, inr}

pub data Result {ℓ} (E A : Type ℓ) : Type ℓ where
  ok : A → Result E A
  err : E → Result E A

infixl 5 ◌>>=◌
abbrev pub ◌>>=◌ {ℓ} : {E A B : Type ℓ} → Result E A → (A → Result E B) → Result E B
ok a >>= f = f a
err e >>= f = err e

pub Result-cases {ℓ} :
    {E A : Type ℓ} (r : Result E A) → ((a : A) × (r ≡ ok a)) ⊎ ((e : E) × (r ≡ err e))
Result-cases (ok a) = inl (a, refl)
Result-cases (err e) = inr (e, refl)

-- A chain that ends well has a first step that ends well.
module _ {ℓ} {E A B : Type ℓ} (next : A → Result E B) {b : B} where
  pub ok_of_bind :
      (first : Result E A) → (first >>= next) ≡ ok b → (a : A) × (first ≡ ok a) × (next a ≡ ok b)
  ok_of_bind (err e) chain = cc
  ok_of_bind (ok a) chain = (a, refl, chain)

-- The error of a result, if it is one.
abbrev pub error_of {ℓ} : {E A : Type ℓ} → Result E A → Option E
error_of (ok a) = none
error_of (err e) = some e
