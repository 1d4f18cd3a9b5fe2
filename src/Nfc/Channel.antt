-- ===== src/Nfc/Channel.antt =====
-- transport/nfc/channel.rs: `handle_raw`, `handle` and `cbor_send`. The reader (`handle_in_ctx` of
-- libnfc or PC/SC) answers from a list; the commands' encoding and the split of a response are
-- apdu-core's.
use libwebauthn.Prelude.{
  ℕ, zero, suc, Bool, true, false, List, [], ◌∷◌, ◌++◌, ◌==◌, ltb, if◌then◌else◌, length, take,
  drop, Result, ok, err, ◌>>=◌,
}

pub data NfcError : Type 0 where
  reader_failed out_of_rounds : NfcError
  buffer_overflow : ℕ → NfcError
  status_error : ℕ → ℕ → NfcError

pub data NfcCommand : Type 0 where
  get_response : ℕ → NfcCommand
  ctap_msg : Bool → List ℕ → NfcCommand

abbrev pub sw1_more_data : ℕ
sw1_more_data = 0x61

abbrev pub chunk_len : ℕ
chunk_len = 250

abbrev pub buffer_len : ℕ
buffer_len = 1024

-- A response: its payload, and the two status bytes behind it.
pub record Response : Type 0 where
  pub payload : List ℕ
  pub sw1 : ℕ
  pub sw2 : ℕ

-- What the reader will answer, and the commands that it was given.
pub record Reader : Type 0 where
  pub answers : List (Result NfcError (List ℕ))
  pub given : List NfcCommand

-- apdu-core: the split of a response, and which status is a success.
pub record ApduCore : Type 0 where
  pub split : List ℕ → Response
  pub is_success : Response → Bool

abbrev pub in_buffer : Result NfcError (List ℕ) → Result NfcError (List ℕ)
in_buffer (err e) = err e
in_buffer (ok bytes) =
    if ltb buffer_len (length bytes) then err (buffer_overflow (length bytes)) else ok bytes

unfoldable pub transmit : NfcCommand → Reader → Result NfcError (List ℕ) × Reader
transmit command r = elim r.answers [
  | [] ↦ (err reader_failed, record r { given = r.given ++ command ∷ [] })
  | answer ∷ rest ↦ (in_buffer answer, record { answers = rest; given = r.given ++ command ∷ [] })
]

module _ (core : ApduCore) where
  -- The loop on "more data", from a response; the last status stands behind the payloads.
  unfoldable pub more_data : ℕ → List ℕ → Response → Reader → Result NfcError (List ℕ) × Reader
  more_data zero rapdu response r = (err out_of_rounds, r)
  more_data (suc fuel) rapdu response r = elim (response.sw1 == sw1_more_data) [
    | false ↦ (ok (rapdu ++ response.sw1 ∷ response.sw2 ∷ []), r)
    | true ↦
        let answer = transmit (get_response response.sw2) r in
        elim answer.0 [
          | err e ↦ (err e, answer.1)
          | ok bytes ↦
              more_data fuel (rapdu ++ (core.split bytes).payload) (core.split bytes) answer.1
        ]
  ]

  -- Every further response uses up an answer of the reader.
  unfoldable pub handle_raw : NfcCommand → Reader → Result NfcError (List ℕ) × Reader
  handle_raw command r =
      let answer = transmit command r in
      elim answer.0 [
        | err e ↦ (err e, answer.1)
        | ok bytes ↦
            more_data (suc (length answer.1.answers)) (core.split bytes).payload (core.split bytes)
              answer.1
      ]

  unfoldable pub accepted : Response → Result NfcError (List ℕ)
  accepted response =
      if core.is_success response
      then ok response.payload
      else err (status_error response.sw1 response.sw2)

  unfoldable pub handle : NfcCommand → Reader → Result NfcError (List ℕ) × Reader
  unfolding accepted
  handle command r =
      let answer = handle_raw command r in
      (answer.0 >>= λ rapdu. accepted (core.split rapdu), answer.1)

  -- `cbor_send`: all chunks but the last say that more follow. A failure ends it.
  unfoldable pub cbor_send : ℕ → List ℕ → Reader → Result NfcError (List ℕ) × Reader
  cbor_send zero rest r = (err out_of_rounds, r)
  cbor_send (suc fuel) rest r = elim (ltb chunk_len (length rest)) [
    | false ↦ handle (ctap_msg false rest) r
    | true ↦
        let answer = handle (ctap_msg true (take chunk_len rest)) r in
        elim answer.0 [
          | err e ↦ (err e, answer.1)
          | ok nothing ↦ cbor_send fuel (drop chunk_len rest) answer.1
        ]
  ]
