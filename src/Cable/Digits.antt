-- ===== src/Cable/Digits.antt =====
-- transport/cable/digit_encode.rs: bytes as decimal digits, seven bytes at a time. A digit stands as its
-- value.
use libwebauthn.Prelude.{
  ℕ, zero, suc, ◌+◌, ◌-◌, ◌*◌, ◌/◌, ◌%◌, ◌^◌, true, false, List, [], ◌∷◌, ◌++◌, ◌==◌, ltb,
  if◌then◌else◌, length, take, drop, replicate,
}

abbrev pub chunk_size : ℕ
chunk_size = 7

abbrev pub chunk_digits : ℕ
chunk_digits = 17

abbrev pub zeros : List ℕ
zeros = replicate chunk_digits 0

abbrev pub partial_chunk_digits : ℕ
partial_chunk_digits = 0x0fda8530

-- `to_string` of Rust's numbers: the decimal digits, at most as many as the fuel.
unfoldable pub decimal : ℕ → ℕ → List ℕ
decimal zero v = []
decimal (suc fuel) v = elim (ltb v 10) [
  | true ↦ v ∷ []
  | false ↦ decimal fuel (v / 10) ++ v % 10 ∷ []
]

-- 2^64 has 20 digits.
abbrev pub to_string : ℕ → List ℕ
to_string v = decimal 20 v

abbrev pub from_le_bytes : List ℕ → ℕ
from_le_bytes [] = 0
from_le_bytes (b ∷ bytes) = b + 256 * from_le_bytes bytes

-- The eight bytes of the array: the slice, and zeros behind it.
abbrev pub padded : List ℕ → List ℕ
padded slice = slice ++ replicate (8 - length slice) 0

unfoldable pub digits : ℕ → ℕ
digits len = if len == chunk_size then chunk_digits else partial_chunk_digits / 2 ^ (4 * len) % 16

unfoldable pub encode_chunk : List ℕ → List ℕ
unfolding digits
encode_chunk slice =
    let v = to_string (from_le_bytes (padded slice)) in
    take (digits (length slice) - length v) zeros ++ v

-- The loop over `chunks`. Every round takes a byte off at least.
unfoldable pub encode_chunks : ℕ → List ℕ → List ℕ
unfolding encode_chunk
encode_chunks zero input = []
encode_chunks (suc fuel) input = elim input [
  | [] ↦ []
  | b ∷ bytes ↦
      encode_chunk (take chunk_size (b ∷ bytes)) ++ encode_chunks fuel (drop chunk_size (b ∷ bytes))
]

unfoldable pub digit_encode : List ℕ → List ℕ
unfolding encode_chunks
digit_encode input = encode_chunks (length input) input
