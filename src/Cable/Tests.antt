-- ===== src/Cable/Tests.antt =====
-- The test of digit_encode.rs, and the theorem at its input.
use libwebauthn.Prelude.{ℕ, ◌≡◌, refl, List, [], ◌∷◌, All, IsByte, arith}
use libwebauthn.Cable.Digits.{decimal, digits, encode_chunk, encode_chunks, digit_encode}
use libwebauthn.Cable.RoundTrip.{digit_decode, digit_decode-digit_encode}

abbrev hello_world : List ℕ
hello_world = 104 ∷ 101 ∷ 108 ∷ 108 ∷ 111 ∷ 32 ∷ 119 ∷ 111 ∷ 114 ∷ 108 ∷ 100 ∷ []

test_digit_encode :
    digit_encode hello_world
    ≡ 3 ∷ 3 ∷ 5 ∷ 3 ∷ 1 ∷ 1 ∷ 8 ∷ 5 ∷ 1 ∷ 6 ∷ 1 ∷ 0 ∷ 6 ∷ 9 ∷ 9 ∷ 2 ∷ 8 ∷ 1 ∷ 6 ∷ 8 ∷ 4 ∷ 8 ∷ 2 ∷ 8
      ∷ 7 ∷ 8 ∷ 3 ∷ []
unfolding digit_encode encode_chunks encode_chunk decimal digits
test_digit_encode = refl

bytes : All IsByte hello_world
bytes = ground arith

digit_decode-digit_encode_example : digit_decode (digit_encode hello_world) ≡ hello_world
digit_decode-digit_encode_example = digit_decode-digit_encode hello_world bytes
