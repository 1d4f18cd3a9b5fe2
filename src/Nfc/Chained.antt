-- ===== src/Nfc/Chained.antt =====
-- transport/nfc/channel.rs: a response in pieces comes out whole, and a message goes out in chunks that
-- put together are the message.
use libwebauthn.Prelude.{
  ℕ, zero, suc, ◌≤◌, ◌<◌, ◌≡◌, refl, ap, ◌∙◌, true, false, List, [], ◌∷◌, ◌++◌, append_assoc,
  append-nil, ◌==◌, length, Result, ok, arith,
}
use libwebauthn.Nfc.Channel.{
  NfcError, NfcCommand, get_response, sw1_more_data, buffer_len, Response, ApduCore, in_buffer,
  transmit, more_data, handle_raw,
}

abbrev pub bytes_of : Response → List ℕ
bytes_of response = response.payload ++ response.sw1 ∷ response.sw2 ∷ []

-- apdu-core splits what was put together, and the buffer holds it.
pub record Splits (core : ApduCore) : Type 0 where
  pub split_whole : (response : Response) → core.split (bytes_of response) ≡ response

-- Pieces of a response: all but the last say that there is more.
abbrev pub Pieces : Response → List Response → Type 0
Pieces response [] = (response.sw1 == sw1_more_data) ≡ false
Pieces response (next ∷ rest) =
    ((response.sw1 == sw1_more_data) ≡ true)
    × (length (bytes_of next) ≤ buffer_len)
    × Pieces next rest

abbrev pub whole : Response → List Response → List ℕ
whole response [] = bytes_of response
whole response (next ∷ rest) = response.payload ++ whole next rest

abbrev pub asked : Response → List Response → List NfcCommand
asked response [] = []
asked response (next ∷ rest) = get_response response.sw2 ∷ asked next rest

abbrev pub sent : List Response → List (Result NfcError (List ℕ))
sent [] = []
sent (response ∷ rest) = ok (bytes_of response) ∷ sent rest

in_buffer-ok : (bytes : List ℕ) → length bytes ≤ buffer_len → in_buffer (ok bytes) ≡ ok bytes
in_buffer-ok bytes h = ground arith

module _ (core : ApduCore) (splits : Splits core) where
  more_data-whole :
      (fuel : ℕ) (acc : List ℕ) (response : Response) (rest : List Response)
      (given : List NfcCommand)
      → length rest < fuel
      → Pieces response rest
      → more_data core fuel
          (acc ++ response.payload)
          response
          (record { answers = sent rest; given = given })
        ≡ (
          ok (acc ++ whole response rest),
          record { answers = []; given = given ++ asked response rest },
        )
  unfolding more_data transmit
  more_data-whole zero acc response rest given lt p = absurd (omega arith)
  more_data-whole (suc fuel) acc response [] given lt p =
      rw
        (
          more_data,
          p,
          append-nil given,
          append_assoc acc response.payload (response.sw1 ∷ response.sw2 ∷ []),
        )
        refl
  more_data-whole (suc fuel) acc response (next ∷ rest) given lt (more, fits, p) =
      rw (more_data, more, in_buffer-ok (bytes_of next) fits, splits.split_whole next)
        (more_data-whole fuel (acc ++ response.payload) next rest
            (given ++ get_response response.sw2 ∷ []) (omega arith) p
          ∙ ap
              (λ l. (
                ok l,
                record {
                  answers = [];
                  given = given ++ get_response response.sw2 ∷ [] ++ asked next rest;
                },
              ))
              (append_assoc acc response.payload (whole next rest))
          ∙ ap
              (λ g. (
                ok (acc ++ (response.payload ++ whole next rest)),
                record { answers = []; given = g },
              ))
              (append_assoc given (get_response response.sw2 ∷ []) (asked next rest)))

  length-sent : (rest : List Response) → length (sent rest) ≡ length rest
  length-sent [] = refl
  length-sent (response ∷ rest) = ap suc (length-sent rest)

  -- A response that the device gives in pieces comes out whole: the payloads in their order, and the
  -- last status behind them. The device is asked for each further piece once, with the length that
  -- the piece before announces.
  pub handle_raw-whole :
      (command : NfcCommand) (response : Response) (rest : List Response) (given : List NfcCommand)
      → length (bytes_of response) ≤ buffer_len
      → Pieces response rest
      → handle_raw core command (record { answers = sent (response ∷ rest); given = given }) ≡ (
        ok (whole response rest),
        record { answers = []; given = given ++ command ∷ [] ++ asked response rest },
      )
  unfolding handle_raw transmit
  handle_raw-whole command response rest given fits p =
      rw (handle_raw, in_buffer-ok (bytes_of response) fits, splits.split_whole response)
        (more_data-whole (suc (length (sent rest))) [] response rest (given ++ command ∷ [])
          (omega (arith, length-sent rest)) p)
