-- ===== src/Cable/Decimal.antt =====
-- transport/cable/digit_encode.rs: the number that decimal digits stand for, and how many a number has.
use libwebauthn.Prelude.{
  ℕ, zero, suc, ◌+◌, ◌*◌, ◌/◌, ◌%◌, ◌≤◌, ◌<◌, ◌≡◌, refl, ◌∙◌, inl, inr, List, [], ◌∷◌, ◌++◌, ltb,
  length, length-append, replicate, Bool-cases, arith,
}
use libwebauthn.Cable.Digits.{decimal}

abbrev pub value : ℕ → List ℕ → ℕ
value acc [] = acc
value acc (d ∷ ds) = value (10 * acc + d) ds

abbrev pub power_of_ten : ℕ → ℕ
power_of_ten zero = 1
power_of_ten (suc n) = 10 * power_of_ten n

value-append : (acc : ℕ) (ds : List ℕ) (d : ℕ) → value acc (ds ++ d ∷ []) ≡ 10 * value acc ds + d
value-append acc [] d = refl
value-append acc (x ∷ ds) d = value-append (10 * acc + x) ds d

-- Leading zeros do not change the number.
pub value-zeros : (n : ℕ) (ds : List ℕ) → value 0 (replicate n 0 ++ ds) ≡ value 0 ds
value-zeros zero ds = refl
value-zeros (suc n) ds = value-zeros n ds

tenth : (n v : ℕ) → v < 10 * power_of_ten n → v / 10 < power_of_ten n
tenth n v lt = omega arith

pub value-decimal : (fuel v : ℕ) → v < power_of_ten fuel → value 0 (decimal fuel v) ≡ v
unfolding decimal
value-decimal zero v lt = omega arith
value-decimal (suc fuel) v lt = elim (Bool-cases (ltb v 10)) [
  | inl e ↦ rw (decimal, e) (omega arith)
  | inr e ↦
      rw (decimal, e)
        (value-append 0 (decimal fuel (v / 10)) (v % 10)
          ∙ omega (arith, value-decimal fuel (v / 10) (tenth fuel v lt)))
]

-- A number below a power of ten has at most that many digits.
pub length-decimal : (fuel n v : ℕ) → v < 10 * power_of_ten n → length (decimal fuel v) ≤ suc n
unfolding decimal
length-decimal zero n v lt = omega arith
length-decimal (suc fuel) zero v lt = elim (Bool-cases (ltb v 10)) [
  | inl e ↦ rw (decimal, e) (omega arith)
  | inr e ↦ ground arith
]
length-decimal (suc fuel) (suc n) v lt = elim (Bool-cases (ltb v 10)) [
  | inl e ↦ rw (decimal, e) (omega arith)
  | inr e ↦
      rw (decimal, e)
        (omega (
          arith,
          length-append (decimal fuel (v / 10)) (v % 10 ∷ []),
          length-decimal fuel n (v / 10) (tenth (suc n) v lt),
        ))
]
