-- ===== src/Nfc/Tests.antt =====
-- A split of a response as apdu-core's, a response in two pieces, a message in two chunks, and the
-- theorems at them.
use libwebauthn.Prelude.{
  ℕ, ◌≡◌, refl, ap, Bool, false, List, [], ◌∷◌, ◌++◌, ◌==◌, ◌&&◌, replicate, All, ok, arith,
}
use libwebauthn.Nfc.Channel.{
  ctap_msg, get_response, Response, Reader, ApduCore, transmit, more_data, handle_raw, accepted,
  handle, cbor_send,
}
use libwebauthn.Nfc.Chained.{Splits, whole, asked, sent, handle_raw-whole}
use libwebauthn.Nfc.Leaves.{messages, InTime}
use libwebauthn.Nfc.Chunks.{Chunks, cbor_send-InTime, cbor_send-Chunks}

abbrev prepend : ℕ → Response → Response
prepend b response = record response { payload = b ∷ response.payload }

-- Two bytes, and the rest behind them: the last two are the status.
abbrev split_behind : ℕ → ℕ → List ℕ → Response
split_behind a b [] = record { payload = []; sw1 = a; sw2 = b }
split_behind a b (c ∷ bytes) = prepend a (split_behind b c bytes)

abbrev split_last_two : List ℕ → Response
split_last_two [] = record { payload = []; sw1 = 0; sw2 = 0 }
split_last_two (a ∷ []) = record { payload = []; sw1 = 0; sw2 = a }
split_last_two (a ∷ b ∷ bytes) = split_behind a b bytes

split_behind-append :
    (x y : ℕ) (payload : List ℕ) (a b : ℕ)
    → split_behind x y (payload ++ a ∷ b ∷ [])
      ≡ record { payload = x ∷ y ∷ payload; sw1 = a; sw2 = b }
split_behind-append x y [] a b = refl
split_behind-append x y (z ∷ payload) a b = ap (prepend x) (split_behind-append y z payload a b)

split_last_two-append :
    (payload : List ℕ) (a b : ℕ)
    → split_last_two (payload ++ a ∷ b ∷ []) ≡ record { payload = payload; sw1 = a; sw2 = b }
split_last_two-append [] a b = refl
split_last_two-append (x ∷ []) a b = refl
split_last_two-append (x ∷ y ∷ payload) a b = split_behind-append x y payload a b

abbrev core : ApduCore
core = record {
  split = split_last_two;
  is_success = λ response. response.sw1 == 0x90 && response.sw2 == 0;
}

abbrev core-Splits : Splits core
core-Splits = record {
  split_whole = λ response. split_last_two-append response.payload response.sw1 response.sw2;
}

abbrev first_piece : Response
first_piece = record { payload = 1 ∷ 2 ∷ []; sw1 = 0x61; sw2 = 1 }

abbrev last_piece : Response
last_piece = record { payload = 3 ∷ []; sw1 = 0x90; sw2 = 0 }

-- The last piece is asked for with the length that the first one announces.
both_pieces :
    handle_raw core
      (ctap_msg false (7 ∷ []))
      (record { answers = sent (first_piece ∷ last_piece ∷ []); given = [] })
    ≡ (
      ok (1 ∷ 2 ∷ 3 ∷ 0x90 ∷ 0 ∷ []),
      record { answers = []; given = ctap_msg false (7 ∷ []) ∷ get_response 1 ∷ [] },
    )
unfolding handle_raw transmit more_data
both_pieces = refl

handle_raw-whole_example :
    handle_raw core
      (ctap_msg false (7 ∷ []))
      (record { answers = sent (first_piece ∷ last_piece ∷ []); given = [] })
    ≡ (
      ok (whole first_piece (last_piece ∷ [])),
      record {
        answers = [];
        given = [] ++ ctap_msg false (7 ∷ []) ∷ [] ++ asked first_piece (last_piece ∷ []);
      },
    )
handle_raw-whole_example =
    handle_raw-whole core core-Splits (ctap_msg false (7 ∷ [])) first_piece (last_piece ∷ []) []
      (omega arith) (refl, omega arith, refl)

abbrev message : List ℕ
message = replicate 260 1

-- One acceptance for each of the two chunks.
abbrev accepting : Reader
accepting = record { answers = ok (0x90 ∷ 0 ∷ []) ∷ ok (0x90 ∷ 0 ∷ []) ∷ []; given = [] }

accepting-InTime : All InTime accepting.answers
accepting-InTime = ((λ x. cc), ((λ x. cc), tt))

cbor_send-InTime_example : InTime (cbor_send core 261 message accepting).0
cbor_send-InTime_example =
    cbor_send-InTime core 261 message accepting (omega arith) accepting-InTime

message_accepted : (cbor_send core 261 message accepting).0 ≡ ok []
unfolding cbor_send handle handle_raw transmit more_data accepted
message_accepted = refl

cbor_send-Chunks_example :
    (chunks : List (Bool × List ℕ)) × (messages (cbor_send core 261 message accepting).1.given
      ≡ [] ++ chunks)
    × Chunks message chunks
cbor_send-Chunks_example =
    cbor_send-Chunks core 261 message accepting [] (omega arith) accepting-InTime message_accepted
