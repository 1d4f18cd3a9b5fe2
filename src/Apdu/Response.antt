-- ===== src/Apdu/Response.antt =====
-- proto/ctap1/apdu/response.rs: parsing a response, and its status.
use libwebauthn.Prelude.{
  ℕ, ◌+◌, ◌-◌, ◌≡◌, refl, Option, none, some, List, [], ◌∷◌, ◌++◌, ltb, ◌==◌, if◌then◌else◌, length,
  take, drop, take_append, drop_append, length-append, read_u16_be, le→ltb, Result, ok, err, arith,
}

pub data ResponseError : Type 0 where
  too_short missing_status : ResponseError
  unknown_status : ℕ → ResponseError

pub record ApduResponse : Type 0 where
  pub payload : Option (List ℕ)
  pub sw1 : ℕ
  pub sw2 : ℕ

pub data ApduResponseStatus : Type 0 where
  no_error user_presence_test_failed command_not_allowed invalid_key_handle : ApduResponseStatus
  invalid_request_length invalid_class_byte invalid_instruction : ApduResponseStatus

abbrev pub status_code : ApduResponseStatus → ℕ
status_code no_error = 0x9000
status_code user_presence_test_failed = 0x6985
status_code command_not_allowed = 0x6986
status_code invalid_key_handle = 0x6A80
status_code invalid_request_length = 0x6700
status_code invalid_class_byte = 0x6E00
status_code invalid_instruction = 0x6D00

-- `TryFromPrimitive`.
abbrev pub status_of_code : ℕ → Option ApduResponseStatus
status_of_code n =
    if n == 0x9000
    then some no_error
    else if n == 0x6985
    then some user_presence_test_failed
    else if n == 0x6986
    then some command_not_allowed
    else if n == 0x6A80
    then some invalid_key_handle
    else if n == 0x6700
    then some invalid_request_length
    else if n == 0x6E00
    then some invalid_class_byte
    else if n == 0x6D00
    then some invalid_instruction
    else none

unfoldable pub new_success : List ℕ → ApduResponse
new_success bytes = record { payload = some bytes; sw1 = 0x90; sw2 = 0x00 }

unfoldable pub status : ApduResponse → Result ResponseError ApduResponseStatus
status r = elim (status_of_code (read_u16_be r.sw1 r.sw2)) [
  | some s ↦ ok s
  | none ↦ err (unknown_status (read_u16_be r.sw1 r.sw2))
]

body_of : List ℕ → Option (List ℕ)
body_of body = if length body == 0 then none else some body

with_status : List ℕ → List ℕ → Result ResponseError ApduResponse
unfolding body_of
with_status body (sw1 ∷ sw2 ∷ rest) = ok (record { payload = body_of body; sw1 = sw1; sw2 = sw2 })
with_status body _ = err missing_status

-- `TryFrom<&Vec<u8>>`.
unfoldable pub parse_response : List ℕ → Result ResponseError ApduResponse
unfolding with_status
parse_response packet =
    if ltb (length packet) 2
    then err too_short
    else with_status (take (length packet - 2) packet) (drop (length packet - 2) packet)

plus_minus : (n : ℕ) → n + 2 - 2 ≡ n
plus_minus n = omega arith

-- The payload of a response; a status alone has none.
abbrev pub payload_of : List ℕ → Option (List ℕ)
payload_of [] = none
payload_of (b ∷ bytes) = some (b ∷ bytes)

body_of-payload_of : (body : List ℕ) → body_of body ≡ payload_of body
unfolding body_of
body_of-payload_of [] = refl
body_of-payload_of (b ∷ bytes) = ground arith

-- A payload, which may be empty, with two status bytes after it is parsed into these three; a packet
-- of less than two bytes is an error.
pub parse_response-append :
    (body : List ℕ) (sw1 sw2 : ℕ)
    → (parse_response (body ++ sw1 ∷ sw2 ∷ [])
        ≡ ok (record { payload = payload_of body; sw1 = sw1; sw2 = sw2 }))
      × (parse_response (sw1 ∷ []) ≡ err too_short)
      × (parse_response [] ≡ err too_short)
unfolding parse_response
parse_response-append body sw1 sw2 = (
  rw (
    length-append body (sw1 ∷ sw2 ∷ []),
    le→ltb (length body + 2) 2 (omega arith),
    plus_minus (length body),
    take_append body (sw1 ∷ sw2 ∷ []),
    drop_append body (sw1 ∷ sw2 ∷ []),
    body_of-payload_of body,
  ),
  refl,
  refl,
)
