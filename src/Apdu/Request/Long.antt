-- ===== src/Apdu/Request/Long.antt =====
-- proto/ctap1/apdu/request.rs: the long form, with a length of three bytes, says what the request says.
use libwebauthn.Prelude.{
  ℕ, ◌+◌, ◌*◌, ◌/◌, ◌%◌, ◌^◌, ◌≤◌, ◌<◌, ◌≡◌, refl, Option, none, some, List, [], ◌∷◌, ◌++◌, ◌==◌,
  if◌then◌else◌, length, take, drop, take_append, drop_append, Result, ok, err, arith,
}
use libwebauthn.Apdu.Request.{ApduError, ApduRequest, raw_long, long_data, long_le, u24_be}

-- A length of two bytes: 0 stands for 65536.
abbrev pub extended_count : ℕ → ℕ
extended_count n = if n == 0 then 65536 else n

abbrev extended_le_of : List ℕ → Option ℕ
extended_le_of (hi ∷ lo ∷ rest) = some (extended_count (hi * 256 + lo))
extended_le_of _ = none

abbrev payload_of : ℕ → List ℕ → Option (List ℕ)
payload_of n rest = if n == 0 then none else some (take n rest)

-- A reader of the long form.
abbrev pub decode_long : List ℕ → Option ApduRequest
decode_long (c ∷ ins ∷ p1 ∷ p2 ∷ a ∷ b ∷ d ∷ rest) = some (record {
  ins = ins;
  p1 = p1;
  p2 = p2;
  payload = payload_of (a * 2 ^ 16 + b * 256 + d) rest;
  response_max_length = extended_le_of (drop (a * 2 ^ 16 + b * 256 + d) rest);
})
decode_long _ = none

abbrev pub decoded_long : Result ApduError (List ℕ) → Option ApduRequest
decoded_long (ok bytes) = decode_long bytes
decoded_long (err e) = none

-- What the long form can hold.
abbrev pub IsLongData : Option (List ℕ) → Type 0
IsLongData none = Unit {0}
IsLongData (some bytes) = (0 < length bytes) × (length bytes ≤ 0xFFFFFF)

abbrev pub IsLongLe : Option ℕ → Type 0
IsLongLe none = Unit {0}
IsLongLe (some le) = (0 < le) × (le ≤ 65536)

long_data-ok :
    (bytes : List ℕ)
    → IsLongData (some bytes)
    → long_data (some bytes) ≡ ok (u24_be (length bytes) ++ bytes)
unfolding long_data
long_data-ok bytes h = ground (arith, h.1)

u24-u24_be : (n : ℕ) → n ≤ 0xFFFFFF → n / 2 ^ 16 % 256 * 2 ^ 16 + n / 256 % 256 * 256 + n % 256 ≡ n
u24-u24_be n h = omega arith

extended_le_of-long_le : (le : Option ℕ) → IsLongLe le → extended_le_of (long_le le) ≡ le
unfolding long_le
extended_le_of-long_le none h = refl
extended_le_of-long_le (some le) h = ground (arith, h.0, h.1)

payload_of-whole :
    (bytes tail : List ℕ)
    → 0 < length bytes
    → payload_of (length bytes) (bytes ++ tail) ≡ some bytes
payload_of-whole [] tail h = absurd (omega arith)
payload_of-whole (x ∷ bytes) tail h = ground (arith, take_append (x ∷ bytes) tail)

decoded_long-fields :
    (ins p1 p2 : ℕ) (payload : Option (List ℕ)) (le : Option ℕ)
    → IsLongData payload
    → IsLongLe le
    → decoded_long (
        raw_long
          (record { ins = ins; p1 = p1; p2 = p2; payload = payload; response_max_length = le }))
      ≡ some (record { ins = ins; p1 = p1; p2 = p2; payload = payload; response_max_length = le })
unfolding raw_long
decoded_long-fields ins p1 p2 none le h g =
    unfold long_data in rw (extended_le_of-long_le le g) refl
decoded_long-fields ins p1 p2 (some bytes) le h g =
    rw
      (
        long_data-ok bytes h,
        u24-u24_be (length bytes) h.1,
        payload_of-whole bytes (long_le le) h.0,
        drop_append bytes (long_le le),
        extended_le_of-long_le le g,
      )
      refl

-- A request with a payload of 1 to 16777215 bytes or none, that expects 1 to 65536 bytes or says
-- nothing of them, has a long form, and from it the request is read again.
pub decoded_long-raw_long :
    (r : ApduRequest)
    → IsLongData r.payload
    → IsLongLe r.response_max_length
    → decoded_long (raw_long r) ≡ some r
decoded_long-raw_long r h g =
    decoded_long-fields r.ins r.p1 r.p2 r.payload r.response_max_length h g
