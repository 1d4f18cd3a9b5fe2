-- ===== src/Cable/Chunk.antt =====
-- transport/cable/digit_encode.rs: a chunk takes as many digits as its length says, and they give its
-- bytes back.
use libwebauthn.Prelude.{
  ℕ, zero, suc, ◌+◌, ◌-◌, ◌*◌, ◌/◌, ◌%◌, ◌≤◌, ◌<◌, ◌≡◌, refl, ap, ◌∙◌, List, [], ◌∷◌, ◌++◌, length,
  take, length-append, replicate, length-replicate, All, IsByte, arith,
}
use libwebauthn.Cable.Digits.{
  chunk_digits, zeros, to_string, from_le_bytes, padded, digits, encode_chunk,
}
use libwebauthn.Cable.Decimal.{value, power_of_ten, value-zeros, value-decimal, length-decimal}

abbrev pub to_le_bytes : ℕ → ℕ → List ℕ
to_le_bytes zero v = []
to_le_bytes (suc n) v = v % 256 ∷ to_le_bytes n (v / 256)

abbrev pub power_of_256 : ℕ → ℕ
power_of_256 zero = 1
power_of_256 (suc n) = 256 * power_of_256 n

pub to_le_bytes-from_le_bytes :
    (bytes : List ℕ) → All IsByte bytes → to_le_bytes (length bytes) (from_le_bytes bytes) ≡ bytes
to_le_bytes-from_le_bytes [] h = refl
to_le_bytes-from_le_bytes (b ∷ bytes) (byte, h) =
    ap (λ x. x ∷ to_le_bytes (length bytes) (from_le_bytes (b ∷ bytes) / 256)) low
    ∙ ap (λ x. b ∷ to_le_bytes (length bytes) x) high
    ∙ ap (λ l. b ∷ l) (to_le_bytes-from_le_bytes bytes h)
  where
    low : from_le_bytes (b ∷ bytes) % 256 ≡ b
    low = omega arith

    high : from_le_bytes (b ∷ bytes) / 256 ≡ from_le_bytes bytes
    high = omega arith

from_le_bytes_bound :
    (bytes : List ℕ) → All IsByte bytes → from_le_bytes bytes < power_of_256 (length bytes)
from_le_bytes_bound [] h = omega arith
from_le_bytes_bound (b ∷ bytes) (byte, h) = omega (arith, from_le_bytes_bound bytes h)

from_le_bytes-zeros : (n : ℕ) → from_le_bytes (replicate n 0) ≡ 0
from_le_bytes-zeros zero = refl
from_le_bytes-zeros (suc n) = omega (arith, from_le_bytes-zeros n)

from_le_bytes-append_zeros :
    (bytes : List ℕ) (n : ℕ) → from_le_bytes (bytes ++ replicate n 0) ≡ from_le_bytes bytes
from_le_bytes-append_zeros [] n = from_le_bytes-zeros n
from_le_bytes-append_zeros (b ∷ bytes) n =
    ap (λ x. b + 256 * x) (from_le_bytes-append_zeros bytes n)

-- The digits of each length are enough for the numbers of that length: one less than them is named.
pub record Enough (len : ℕ) : Type 0 where
  pub fewer : ℕ
  pub digits_are : digits len ≡ suc fewer
  pub few : fewer < chunk_digits
  pub enough : power_of_256 len ≤ 10 * power_of_ten fewer
  pub in_u64 : 10 * power_of_ten fewer ≤ power_of_ten 20

pub digits-Enough : (len : ℕ) → 0 < len → len ≤ 7 → Enough len
unfolding digits
digits-Enough zero pos le = absurd (omega arith)
digits-Enough (suc zero) pos le = record {
  fewer = 2;
  digits_are = refl;
  few = omega arith;
  enough = omega arith;
  in_u64 = omega arith;
}
digits-Enough (suc (suc zero)) pos le = record {
  fewer = 4;
  digits_are = refl;
  few = omega arith;
  enough = omega arith;
  in_u64 = omega arith;
}
digits-Enough (suc (suc (suc zero))) pos le = record {
  fewer = 7;
  digits_are = refl;
  few = omega arith;
  enough = omega arith;
  in_u64 = omega arith;
}
digits-Enough (suc (suc (suc (suc zero)))) pos le = record {
  fewer = 9;
  digits_are = refl;
  few = omega arith;
  enough = omega arith;
  in_u64 = omega arith;
}
digits-Enough (suc (suc (suc (suc (suc zero))))) pos le = record {
  fewer = 12;
  digits_are = refl;
  few = omega arith;
  enough = omega arith;
  in_u64 = omega arith;
}
digits-Enough (suc (suc (suc (suc (suc (suc zero)))))) pos le = record {
  fewer = 14;
  digits_are = refl;
  few = omega arith;
  enough = omega arith;
  in_u64 = omega arith;
}
digits-Enough (suc (suc (suc (suc (suc (suc (suc zero))))))) pos le = record {
  fewer = 16;
  digits_are = refl;
  few = omega arith;
  enough = omega arith;
  in_u64 = omega arith;
}
digits-Enough (suc (suc (suc (suc (suc (suc (suc (suc n)))))))) pos le = absurd (omega arith)

take-zeros : (n m : ℕ) → n ≤ m → take {A = ℕ} n (replicate m 0) ≡ replicate n 0
take-zeros zero m le = refl
take-zeros (suc n) zero le = absurd (omega arith)
take-zeros (suc n) (suc m) le = ap (λ l. 0 ∷ l) (take-zeros n m (omega arith))

module _ (slice : List ℕ) (h : All IsByte slice) (fits : Enough (length slice)) where
  number : from_le_bytes (padded slice) ≡ from_le_bytes slice
  number = from_le_bytes-append_zeros slice (8 - length slice)

  number_bound : from_le_bytes (padded slice) < 10 * power_of_ten fits.fewer
  number_bound = omega (arith, number, from_le_bytes_bound slice h, fits.enough)

  length-number : length (to_string (from_le_bytes (padded slice))) ≤ suc fits.fewer
  length-number = length-decimal 20 fits.fewer (from_le_bytes (padded slice)) number_bound

  padding : ℕ
  padding = digits (length slice) - length (to_string (from_le_bytes (padded slice)))

  padding-zeros : take padding zeros ≡ replicate padding 0
  unfolding padding
  padding-zeros = take-zeros padding chunk_digits (omega (arith, fits.digits_are, fits.few))

  pub length-encode_chunk : length (encode_chunk slice) ≡ digits (length slice)
  unfolding encode_chunk padding
  length-encode_chunk = rw padding-zeros (
      length-append (replicate padding 0) (to_string (from_le_bytes (padded slice)))
      ∙ omega (arith, length-replicate {A = ℕ} padding 0, length-number, fits.digits_are))

  pub value-encode_chunk : value 0 (encode_chunk slice) ≡ from_le_bytes slice
  unfolding encode_chunk padding
  value-encode_chunk = rw padding-zeros (
      value-zeros padding (to_string (from_le_bytes (padded slice)))
      ∙ value-decimal 20 (from_le_bytes (padded slice)) (omega (arith, number_bound, fits.in_u64))
      ∙ number)
