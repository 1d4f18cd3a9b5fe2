-- ===== src/Apdu/Request.antt =====
-- proto/ctap1/apdu/request.rs: a request, its short and long form, and the requests of CTAP1.
pub mod Short
pub mod Long
use libwebauthn.Prelude.{
  ℕ, ◌+◌, ◌/◌, ◌%◌, ◌^◌, Bool, true, false, Option, none, some, List, [], ◌∷◌, ◌++◌, ltb, leb, ◌==◌,
  if◌then◌else◌, length, u16_be, Result, ok, err, ◌>>=◌,
}

-- The three errors of kind `InvalidData`.
pub data ApduError : Type 0 where
  data_too_long : ℕ → ApduError
  empty_payload : ApduError
  le_too_long : ℕ → ApduError

pub record ApduRequest : Type 0 where
  pub ins : ℕ
  pub p1 : ℕ
  pub p2 : ℕ
  pub payload : Option (List ℕ)
  pub response_max_length : Option ℕ

abbrev pub apdu_short_max_data : ℕ
apdu_short_max_data = 0x100

abbrev pub apdu_short_max_le : ℕ
apdu_short_max_le = 0x100

abbrev pub apdu_long_max_data : ℕ
apdu_long_max_data = 0xFFFFFF

abbrev pub apdu_extended_max_le : ℕ
apdu_extended_max_le = 0x10000

abbrev pub cla : ℕ
cla = 0x00

-- `write_u24::<BigEndian>`.
abbrev pub u24_be : ℕ → List ℕ
u24_be n = n / 2 ^ 16 % 256 ∷ n / 256 % 256 ∷ n % 256 ∷ []

unfoldable pub short_data : Option (List ℕ) → Result ApduError (List ℕ)
short_data none = ok []
short_data (some bytes) =
    if ltb apdu_short_max_data (length bytes)
    then err (data_too_long (length bytes))
    else if length bytes == 0
    then err empty_payload
    else ok ((if length bytes == apdu_short_max_data then 0 else length bytes % 256) ∷ bytes)

unfoldable pub short_le : Option ℕ → Result ApduError (List ℕ)
short_le none = ok []
short_le (some le) =
    if ltb apdu_short_max_le le
    then err (le_too_long le)
    else ok ((if le == apdu_short_max_le then 0 else le % 256) ∷ [])

unfoldable pub raw_short : ApduRequest → Result ApduError (List ℕ)
raw_short r = do
  body ← short_data r.payload
  le ← short_le r.response_max_length
  ok (cla ∷ r.ins ∷ r.p1 ∷ r.p2 ∷ (body ++ le))

unfoldable pub long_data : Option (List ℕ) → Result ApduError (List ℕ)
long_data none = ok (u24_be 0)
long_data (some bytes) =
    if ltb apdu_long_max_data (length bytes)
    then err (data_too_long (length bytes))
    else ok (u24_be (length bytes) ++ bytes)

unfoldable pub long_le : Option ℕ → List ℕ
long_le none = []
long_le (some le) = u16_be (if leb apdu_extended_max_le le then 0 else le % 65536)

unfoldable pub raw_long : ApduRequest → Result ApduError (List ℕ)
raw_long r = do
  body ← long_data r.payload
  ok (cla ∷ r.ins ∷ r.p1 ∷ r.p2 ∷ (body ++ long_le r.response_max_length))

-- The requests of CTAP1, from the fields that go into them.
unfoldable pub register_request : List ℕ → List ℕ → ApduRequest
register_request challenge app_id_hash = record {
  ins = 0x01;
  p1 = 0x03;
  p2 = 0x00;
  payload = some (challenge ++ app_id_hash);
  response_max_length = some apdu_extended_max_le;
}

unfoldable pub version_request : ApduRequest
version_request = record {
  ins = 0x03;
  p1 = 0x00;
  p2 = 0x00;
  payload = none;
  response_max_length = some apdu_short_max_le;
}

unfoldable pub sign_request : Bool → List ℕ → List ℕ → List ℕ → ApduRequest
sign_request require_user_presence challenge app_id_hash key_handle = record {
  ins = 0x02;
  p1 = if require_user_presence then 0x03 else 0x08;
  p2 = 0x00;
  payload = some (challenge ++ app_id_hash ++ length key_handle % 256 ∷ key_handle);
  response_max_length = some apdu_short_max_le;
}
