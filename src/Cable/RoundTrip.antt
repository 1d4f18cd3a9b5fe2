-- ===== src/Cable/RoundTrip.antt =====
-- transport/cable/digit_encode.rs: the digits give the bytes back.
use libwebauthn.Prelude.{
  ℕ, zero, suc, ◌+◌, ◌≤◌, ◌<◌, ◌≡◌, refl, sym, ap, subst, ◌∙◌, inl, inr, true, false, List, [], ◌∷◌,
  ◌++◌, append-nil, if◌then◌else◌, ltb, length, length-append, take, drop, length-take, length-drop,
  take-append-drop, take_append, drop_append, take_all, drop_all, All, All-take, All-drop, IsByte,
  Bool-cases, arith,
}
use libwebauthn.Cable.Digits.{
  chunk_size, chunk_digits, digits, encode_chunk, encode_chunks, digit_encode,
}
use libwebauthn.Cable.Decimal.{value}
use libwebauthn.Cable.Chunk.{
  to_le_bytes, to_le_bytes-from_le_bytes, digits-Enough, length-encode_chunk, value-encode_chunk,
}

-- How many bytes fewer than 17 digits are: 0, 3, 5, 8, 10, 13 or 15 digits from none to six.
abbrev pub bytes_in : ℕ → ℕ
bytes_in n =
    if ltb n 3
    then 0
    else if ltb n 5
    then 1
    else if ltb n 8
    then 2
    else if ltb n 10
    then 3
    else if ltb n 13
    then 4
    else if ltb n 15
    then 5
    else 6

-- The reading of the digits: seven bytes from seventeen digits while there are, then the rest.
unfoldable pub digit_decode_from : ℕ → List ℕ → List ℕ
digit_decode_from zero ds = []
digit_decode_from (suc fuel) ds = elim (ltb (length ds) chunk_digits) [
  | true ↦ to_le_bytes (bytes_in (length ds)) (value 0 ds)
  | false ↦
      to_le_bytes chunk_size (value 0 (take chunk_digits ds))
      ++ digit_decode_from fuel (drop chunk_digits ds)
]

abbrev pub digit_decode : List ℕ → List ℕ
digit_decode ds = digit_decode_from (suc (length ds)) ds

-- What the length of a partial chunk says.
partial_digits : (len : ℕ) → len < 7 → (digits len < chunk_digits) × (bytes_in (digits len) ≡ len)
unfolding digits
partial_digits zero lt = (omega arith, refl)
partial_digits (suc zero) lt = (omega arith, refl)
partial_digits (suc (suc zero)) lt = (omega arith, refl)
partial_digits (suc (suc (suc zero))) lt = (omega arith, refl)
partial_digits (suc (suc (suc (suc zero)))) lt = (omega arith, refl)
partial_digits (suc (suc (suc (suc (suc zero))))) lt = (omega arith, refl)
partial_digits (suc (suc (suc (suc (suc (suc zero)))))) lt = (omega arith, refl)
partial_digits (suc (suc (suc (suc (suc (suc (suc n))))))) lt = absurd (omega arith)

decoded_chunk :
    (slice : List ℕ)
    → All IsByte slice
    → 0 < length slice
    → length slice ≤ 7
    → to_le_bytes (length slice) (value 0 (encode_chunk slice)) ≡ slice
decoded_chunk slice h pos le =
    ap (to_le_bytes (length slice))
      (value-encode_chunk slice h (digits-Enough (length slice) pos le))
    ∙ to_le_bytes-from_le_bytes slice h

decode_last :
    (fuel : ℕ) (slice : List ℕ)
    → All IsByte slice
    → 0 < length slice
    → length slice < 7
    → digit_decode_from (suc fuel) (encode_chunk slice) ≡ slice
unfolding digit_decode_from
decode_last fuel slice h pos lt =
    let (below, bytes) = partial_digits (length slice) lt in
    let size = length-encode_chunk slice h (digits-Enough (length slice) pos (omega arith)) in
    rw (digit_decode_from, shorter size below)
      (ap (λ n. to_le_bytes (bytes_in n) (value 0 (encode_chunk slice))) size
        ∙ ap (λ n. to_le_bytes n (value 0 (encode_chunk slice))) bytes
        ∙ decoded_chunk slice h pos (omega arith))
  where
    shorter :
        length (encode_chunk slice) ≡ digits (length slice)
        → digits (length slice) < chunk_digits
        → ltb (length (encode_chunk slice)) chunk_digits ≡ true
    shorter e below = ground arith

decode_more :
    (fuel : ℕ) (xs ys : List ℕ)
    → length xs ≡ chunk_digits
    → digit_decode_from (suc fuel) (xs ++ ys)
      ≡ to_le_bytes chunk_size (value 0 xs) ++ digit_decode_from fuel ys
unfolding digit_decode_from
decode_more fuel xs ys e = rw (digit_decode_from, longer (length-append xs ys), first, next) refl
  where
    longer :
        length (xs ++ ys) ≡ length xs + length ys → ltb (length (xs ++ ys)) chunk_digits ≡ false
    longer l = ground arith

    first : take chunk_digits (xs ++ ys) ≡ xs
    first = subst (λ n. take n (xs ++ ys) ≡ xs) e (take_append xs ys)

    next : drop chunk_digits (xs ++ ys) ≡ ys
    next = subst (λ n. drop n (xs ++ ys) ≡ ys) e (drop_append xs ys)

no_chunks : (fuel : ℕ) → encode_chunks fuel [] ≡ []
unfolding encode_chunks
no_chunks zero = refl
no_chunks (suc fuel) = refl

decode_none : (fuel : ℕ) → digit_decode_from fuel [] ≡ []
unfolding digit_decode_from
decode_none zero = refl
decode_none (suc fuel) = refl

last_chunk :
    (rounds b : ℕ) (bytes : List ℕ)
    → length (b ∷ bytes) ≤ chunk_size
    → encode_chunks (suc rounds) (b ∷ bytes) ≡ encode_chunk (b ∷ bytes)
unfolding encode_chunks
last_chunk rounds b bytes le =
    ap (λ l. encode_chunk l ++ encode_chunks rounds (drop chunk_size (b ∷ bytes)))
      (take_all chunk_size (b ∷ bytes) le)
    ∙ ap (λ l. encode_chunk (b ∷ bytes) ++ encode_chunks rounds l)
        (drop_all chunk_size (b ∷ bytes) le)
    ∙ ap (λ l. encode_chunk (b ∷ bytes) ++ l) (no_chunks rounds)
    ∙ append-nil (encode_chunk (b ∷ bytes))

full_slice : (n : ℕ) (xs : List ℕ) → n ≤ length xs → length (take n xs) ≡ n
full_slice n xs le = omega (arith, length-take n xs)

module _ (input : List ℕ) (full : chunk_size ≤ length input) (h : All IsByte input) where
  slice_size : length (take chunk_size input) ≡ chunk_size
  slice_size = full_slice chunk_size input full

  slice_digits : length (encode_chunk (take chunk_size input)) ≡ chunk_digits
  unfolding digits
  slice_digits =
      length-encode_chunk (take chunk_size input) (All-take IsByte chunk_size input h) (
        digits-Enough (length (take chunk_size input)) (omega (arith, slice_size))
          (omega (arith, slice_size)))
      ∙ ap digits slice_size

  decoded_slice :
      to_le_bytes chunk_size (value 0 (encode_chunk (take chunk_size input)))
      ≡ take chunk_size input
  decoded_slice =
      ap (λ n. to_le_bytes n (value 0 (encode_chunk (take chunk_size input)))) (sym slice_size)
      ∙ decoded_chunk (take chunk_size input) (All-take IsByte chunk_size input h)
          (omega (arith, slice_size)) (omega (arith, slice_size))

  decode_full :
      (fuel : ℕ) (ds : List ℕ)
      → digit_decode_from fuel ds ≡ drop chunk_size input
      → digit_decode_from (suc fuel) (encode_chunk (take chunk_size input) ++ ds) ≡ input
  decode_full fuel ds rest =
      decode_more fuel (encode_chunk (take chunk_size input)) ds slice_digits
      ∙ ap (λ l. l ++ digit_decode_from fuel ds) decoded_slice
      ∙ ap (λ l. take chunk_size input ++ l) rest
      ∙ take-append-drop chunk_size input

  fewer_digits :
      (fuel : ℕ) (ds : List ℕ)
      → length (encode_chunk (take chunk_size input) ++ ds) < suc fuel
      → length ds < fuel
  fewer_digits fuel ds lt =
      omega (arith, slice_digits, length-append (encode_chunk (take chunk_size input)) ds)

rest_size :
    (n rounds : ℕ) (xs : List ℕ) → 0 < n → length xs ≤ suc rounds → length (drop n xs) ≤ rounds
rest_size n rounds xs pos le = omega (arith, length-drop n xs)

decode_chunks :
    (rounds fuel : ℕ) (input : List ℕ)
    → length input ≤ rounds
    → length (encode_chunks rounds input) < fuel
    → All IsByte input
    → digit_decode_from fuel (encode_chunks rounds input) ≡ input
unfolding encode_chunks
decode_chunks rounds fuel [] le lt h =
    ap (digit_decode_from fuel) (no_chunks rounds) ∙ decode_none fuel
decode_chunks zero fuel (b ∷ bytes) le lt h = absurd (omega arith)
decode_chunks (suc rounds) zero (b ∷ bytes) le lt h = absurd (omega arith)
decode_chunks (suc rounds) (suc fuel) (b ∷ bytes) le lt h =
    elim (Bool-cases (ltb (length (b ∷ bytes)) chunk_size)) [
      | inl e ↦
          ap (digit_decode_from (suc fuel)) (last_chunk rounds b bytes (ground arith))
          ∙ decode_last fuel (b ∷ bytes) h (omega arith) (ground arith)
      | inr e ↦
          let full = at_least e in
          let rest = drop chunk_size (b ∷ bytes) in
          decode_full (b ∷ bytes) full h fuel (encode_chunks rounds rest) (
            decode_chunks rounds fuel rest
              (rest_size chunk_size rounds (b ∷ bytes) (omega arith) le)
              (fewer_digits (b ∷ bytes) full h fuel (encode_chunks rounds rest) lt)
              (All-drop IsByte chunk_size (b ∷ bytes) h))
    ]
  where
    at_least : ltb (length (b ∷ bytes)) chunk_size ≡ false → chunk_size ≤ length (b ∷ bytes)
    at_least e = ground arith

-- The digits give the bytes back: whoever reads seventeen digits as seven bytes while there are
-- seventeen, and takes from the number of the last digits how many bytes they stand for, gets the
-- input of `digit_encode`.
pub digit_decode-digit_encode :
    (input : List ℕ) → All IsByte input → digit_decode (digit_encode input) ≡ input
unfolding digit_encode
digit_decode-digit_encode input h =
    decode_chunks (length input) (suc (length (digit_encode input))) input (omega arith)
      (omega arith) h
