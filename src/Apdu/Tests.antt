-- ===== src/Apdu/Tests.antt =====
-- The tests of request.rs and response.rs, and the theorems at inputs.
use libwebauthn.Prelude.{◌≡◌, refl, none, some, [], ◌∷◌, arith, ok, err}
use libwebauthn.Apdu.Request.{
  ApduRequest, raw_short, raw_long, short_data, short_le, long_data, long_le, version_request,
}
use libwebauthn.Apdu.Request.Short.{decoded, decoded-raw_short}
use libwebauthn.Apdu.Request.Long.{decoded_long, decoded_long-raw_long}
use libwebauthn.Apdu.Response.{
  parse_response, parse_response-append, too_short, status, user_presence_test_failed,
}

abbrev with_data_le : ApduRequest
with_data_le = record {
  ins = 0x03;
  p1 = 0x02;
  p2 = 0x01;
  payload = some (0xAA ∷ 0xBB ∷ 0xCC ∷ []);
  response_max_length = some 0x42;
}

short_with_data :
    raw_short with_data_le ≡ ok (0x00 ∷ 0x03 ∷ 0x02 ∷ 0x01 ∷ 0x03 ∷ 0xAA ∷ 0xBB ∷ 0xCC ∷ 0x42 ∷ [])
unfolding raw_short short_data short_le
short_with_data = refl

long_with_data :
    raw_long with_data_le
    ≡ ok (0x00 ∷ 0x03 ∷ 0x02 ∷ 0x01 ∷ 0x00 ∷ 0x00 ∷ 0x03 ∷ 0xAA ∷ 0xBB ∷ 0xCC ∷ 0x00 ∷ 0x42 ∷ [])
unfolding raw_long long_data long_le
long_with_data = refl

version_short : raw_short version_request ≡ ok (0x00 ∷ 0x03 ∷ 0x00 ∷ 0x00 ∷ 0x00 ∷ [])
unfolding version_request raw_short short_data short_le
version_short = refl

decoded-raw_short_example : decoded (raw_short with_data_le) ≡ some with_data_le
decoded-raw_short_example =
    decoded-raw_short with_data_le (omega arith, omega arith) (omega arith, omega arith)

decoded_long-raw_long_example : decoded_long (raw_long with_data_le) ≡ some with_data_le
decoded_long-raw_long_example =
    decoded_long-raw_long with_data_le (omega arith, omega arith) (omega arith, omega arith)

parse_response-append_example :
    (parse_response (1 ∷ 2 ∷ 3 ∷ 0x90 ∷ 0x00 ∷ [])
      ≡ ok (record { payload = some (1 ∷ 2 ∷ 3 ∷ []); sw1 = 0x90; sw2 = 0x00 }))
    × (parse_response (0x90 ∷ []) ≡ err too_short)
    × (parse_response [] ≡ err too_short)
parse_response-append_example = parse_response-append (1 ∷ 2 ∷ 3 ∷ []) 0x90 0x00

apdu_from_status_only_packet :
    status (record { payload = none; sw1 = 0x69; sw2 = 0x85 }) ≡ ok user_presence_test_failed
unfolding status
apdu_from_status_only_packet = refl
