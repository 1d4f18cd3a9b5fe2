-- ===== src/Prelude/Bytes.antt =====
-- Bytes and big-endian words (the `byteorder` crate's `write_u16`, `write_u32` and their readers),
-- and the tables for masks on one byte.
use Prim.Native.Nat.{ℕ, zero, suc, ◌+◌, ◌*◌, ◌/◌, ◌%◌, ◌^◌, ◌<◌, bit_and}
use mathlib.Core.Path.{◌≡◌, refl}
use mathlib.Core.Bool.{Bool, true, false, ◌&&◌}
use mathlib.Core.List.{List, [], ◌∷◌}
use native.Mathlib.Omega.{arith}
use libwebauthn.Prelude.Tests.{◌==◌}

abbrev pub IsByte : ℕ → Type 0
IsByte b = b < 256

abbrev pub IsU16 : ℕ → Type 0
IsU16 n = n < 65536

abbrev pub IsU32 : ℕ → Type 0
IsU32 n = n < 2 ^ 32

abbrev pub u16_be : ℕ → List ℕ
u16_be n = n / 256 % 256 ∷ n % 256 ∷ []

abbrev pub u32_be : ℕ → List ℕ
u32_be n = n / 2 ^ 24 % 256 ∷ n / 2 ^ 16 % 256 ∷ n / 256 % 256 ∷ n % 256 ∷ []

abbrev pub read_u16_be : ℕ → ℕ → ℕ
read_u16_be hi lo = hi * 256 + lo

abbrev pub read_u32_be : ℕ → ℕ → ℕ → ℕ → ℕ
read_u32_be a b c d = a * 2 ^ 24 + b * 2 ^ 16 + c * 256 + d

pub read_u16_be-u16_be : (n : ℕ) → IsU16 n → read_u16_be (n / 256 % 256) (n % 256) ≡ n
read_u16_be-u16_be n h = omega arith

pub read_u32_be-u32_be :
    (n : ℕ)
    → IsU32 n
    → read_u32_be (n / 2 ^ 24 % 256) (n / 2 ^ 16 % 256) (n / 256 % 256) (n % 256) ≡ n
read_u32_be-u32_be n h = omega arith

agree_below : ℕ → (ℕ → ℕ) → (ℕ → ℕ) → Bool
agree_below zero f g = true
agree_below (suc n) f g = f n == g n && agree_below n f g

agree_below_sound : (n : ℕ) (f g : ℕ → ℕ) (i : ℕ) → agree_below n f g ≡ true → i < n → f i ≡ g i
unfolding agree_below
agree_below_sound zero f g i h lt = absurd (omega arith)
agree_below_sound (suc n) f g i h lt = ground (arith, agree_below_sound n f g i)

-- The top bit of a byte, as `b & 0x80` reads it.
pub top_bit : (b : ℕ) → b < 256 → bit_and b 0x80 ≡ b / 128 * 128
unfolding agree_below
top_bit b h = agree_below_sound 256 (λ i. bit_and i 0x80) (λ i. i / 128 * 128) b refl h

-- The low nibble of a byte.
pub low_nibble : (b : ℕ) → b < 256 → bit_and b 0x0F ≡ b % 16
unfolding agree_below
low_nibble b h = agree_below_sound 256 (λ i. bit_and i 0x0F) (λ i. i % 16) b refl h

-- Equality of byte strings.
abbrev pub bytes_eq : List ℕ → List ℕ → Bool
bytes_eq [] [] = true
bytes_eq (x ∷ xs) (y ∷ ys) = x == y && bytes_eq xs ys
bytes_eq _ _ = false

pub bytes_eq_refl : (xs : List ℕ) → bytes_eq xs xs ≡ true
bytes_eq_refl [] = refl
bytes_eq_refl (x ∷ xs) = ground (arith, bytes_eq_refl xs)

pub bytes_eq→eq : (xs ys : List ℕ) → bytes_eq xs ys ≡ true → xs ≡ ys
bytes_eq→eq [] [] h = refl
bytes_eq→eq [] (y ∷ ys) h = cc
bytes_eq→eq (x ∷ xs) [] h = cc
bytes_eq→eq (x ∷ xs) (y ∷ ys) h = ground (arith, bytes_eq→eq xs ys)
