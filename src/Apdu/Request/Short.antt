-- ===== src/Apdu/Request/Short.antt =====
-- proto/ctap1/apdu/request.rs: the short form says what the request says, by the reading of ISO 7816-4.
use libwebauthn.Prelude.{
  ℕ, ◌%◌, ◌≤◌, ◌<◌, ◌≡◌, refl, ap, ◌∙◌, false, ltb, length-append, Option, none, some, List, [],
  ◌∷◌, ◌++◌, ◌==◌, if◌then◌else◌, length, take, drop, take_append, drop_append, Result, ok, err,
  arith,
}
use libwebauthn.Apdu.Request.{ApduError, ApduRequest, raw_short, short_data, short_le}

-- The byte of an expected length: 0 stands for 256.
abbrev pub count : ℕ → ℕ
count b = if b == 0 then 256 else b

-- Behind the payload stands an expected length or nothing.
abbrev ended : List ℕ → List ℕ → Option (Option ℕ × Option (List ℕ))
ended body [] = some (none, some body)
ended body (b ∷ []) = some (some (count b), some body)
ended body (b ∷ c ∷ rest) = none

-- A payload is of 1 to 255 bytes: the length byte 0 announces the extended form.
abbrev with_body : ℕ → List ℕ → Option (Option ℕ × Option (List ℕ))
with_body lc bytes =
    if lc == 0
    then none
    else if ltb (length bytes) lc
    then none
    else ended (take lc bytes) (drop lc bytes)

abbrev decode_fields : List ℕ → Option (Option ℕ × Option (List ℕ))
decode_fields [] = some (none, none)
decode_fields (b ∷ []) = some (some (count b), none)
decode_fields (lc ∷ x ∷ rest) = with_body lc (x ∷ rest)

abbrev with_fields : ℕ → ℕ → ℕ → Option (Option ℕ × Option (List ℕ)) → Option ApduRequest
with_fields ins p1 p2 none = none
with_fields ins p1 p2 (some (le, payload)) =
    some (record { ins = ins; p1 = p1; p2 = p2; payload = payload; response_max_length = le })

-- A reader of the short form, as a card has it.
abbrev pub decode_short : List ℕ → Option ApduRequest
decode_short (c ∷ ins ∷ p1 ∷ p2 ∷ fields) = with_fields ins p1 p2 (decode_fields fields)
decode_short _ = none

abbrev pub decoded : Result ApduError (List ℕ) → Option ApduRequest
decoded (ok bytes) = decode_short bytes
decoded (err e) = none

-- What the short form can hold.
abbrev pub IsShortData : Option (List ℕ) → Type 0
IsShortData none = Unit {0}
IsShortData (some bytes) = (0 < length bytes) × (length bytes < 256)

abbrev pub IsShortLe : Option ℕ → Type 0
IsShortLe none = Unit {0}
IsShortLe (some le) = (0 < le) × (le ≤ 256)

length_byte : ℕ → ℕ
length_byte n = if n == 256 then 0 else n % 256

count-length_byte : (n : ℕ) → 0 < n → n ≤ 256 → count (length_byte n) ≡ n
unfolding length_byte
count-length_byte n h g = ground arith

short_data-ok :
    (bytes : List ℕ)
    → (0 < length bytes) × (length bytes ≤ 256)
    → short_data (some bytes) ≡ ok (length_byte (length bytes) ∷ bytes)
unfolding short_data length_byte
short_data-ok [] h = absurd (omega (arith, h.0))
short_data-ok (x ∷ bytes) h = ground (arith, h.1)

short_le-ok : (le : ℕ) → IsShortLe (some le) → short_le (some le) ≡ ok (length_byte le ∷ [])
unfolding short_le length_byte
short_le-ok le h = ground (arith, h.1)

-- The fields of a payload with an expected length behind it, or with nothing.
decode_fields-both :
    (bytes : List ℕ) (tail : List ℕ)
    → IsShortData (some bytes)
    → decode_fields (length_byte (length bytes) ∷ (bytes ++ tail)) ≡ ended bytes tail
unfolding length_byte
decode_fields-both [] tail h = absurd (omega (arith, h.0))
decode_fields-both (x ∷ bytes) tail h =
    ap (λ n. with_body n (x ∷ (bytes ++ tail))) lc
    ∙ rw (positive, reaches, take_append (x ∷ bytes) tail, drop_append (x ∷ bytes) tail) refl
  where
    lc : length_byte (length (x ∷ bytes)) ≡ length (x ∷ bytes)
    lc = ground (arith, h.1)

    positive : (length (x ∷ bytes) == 0) ≡ false
    positive = ground arith

    reaches : ltb (length ((x ∷ bytes) ++ tail)) (length (x ∷ bytes)) ≡ false
    reaches = ground (arith, length-append (x ∷ bytes) tail)

decoded-fields :
    (ins p1 p2 : ℕ) (payload : Option (List ℕ)) (le : Option ℕ)
    → IsShortData payload
    → IsShortLe le
    → decoded (
        raw_short
          (record { ins = ins; p1 = p1; p2 = p2; payload = payload; response_max_length = le }))
      ≡ some (record { ins = ins; p1 = p1; p2 = p2; payload = payload; response_max_length = le })
unfolding raw_short short_data short_le
decoded-fields ins p1 p2 none none h g = refl
decoded-fields ins p1 p2 none (some le) h g = rw (short_le-ok le g, count-length_byte le g.0 g.1)
decoded-fields ins p1 p2 (some bytes) none h g =
    rw (short_data-ok bytes (h.0, omega (arith, h.1)), decode_fields-both bytes [] h)
decoded-fields ins p1 p2 (some bytes) (some le) h g = rw (
  short_data-ok bytes (h.0, omega (arith, h.1)),
  short_le-ok le g,
  decode_fields-both bytes (length_byte le ∷ []) h,
  count-length_byte le g.0 g.1,
)

-- A request with a payload of 1 to 255 bytes or none, that expects 1 to 256 bytes or says nothing of
-- them, has a short form, and from it a card reads the request again.
pub decoded-raw_short :
    (r : ApduRequest)
    → IsShortData r.payload
    → IsShortLe r.response_max_length
    → decoded (raw_short r) ≡ some r
decoded-raw_short r h g = decoded-fields r.ins r.p1 r.p2 r.payload r.response_max_length h g
