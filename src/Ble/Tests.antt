-- ===== src/Ble/Tests.antt =====
-- Runs of the BLE framing on the inputs of framing.rs's own tests, and the theorems at inputs.
use libwebauthn.Prelude.{ℕ, ◌≡◌, refl, none, List, [], ◌∷◌, ◌++◌, map, arith, ok, error_of}
use libwebauthn.Ble.Frame.{BleFrame, ping, keepalive, msg, command_byte}
use libwebauthn.Ble.Fragments.{fragments}
use libwebauthn.Ble.Fragments.Sizes.{fragments_error}
use libwebauthn.Ble.Parser.{new}
use libwebauthn.Ble.Connection.{notification, stream_ended, waiting, finished, frame_recv}
use libwebauthn.Ble.Connection.RoundTrip.{recv-fragments, on_frame}
use libwebauthn.Ble.Connection.Keepalive.{all_fragments, recv-after_keepalives}
use libwebauthn.Ble.Connection.Ping.{ping-swallows}

abbrev eight_bytes : BleFrame
eight_bytes = record { cmd = msg; content = 1 ∷ 2 ∷ 3 ∷ 4 ∷ 5 ∷ 6 ∷ 7 ∷ 8 ∷ [] }

abbrev still_busy : BleFrame
still_busy = record { cmd = keepalive; content = 1 ∷ [] }

abbrev probe : BleFrame
probe = record { cmd = ping; content = [] }

abbrev eight_fragments : List (List ℕ)
eight_fragments =
    (0x83 ∷ 0x00 ∷ 0x08 ∷ 0x01 ∷ [])
    ∷ (0x00 ∷ 0x02 ∷ 0x03 ∷ 0x04 ∷ [])
    ∷ (0x01 ∷ 0x05 ∷ 0x06 ∷ 0x07 ∷ [])
    ∷ (0x02 ∷ 0x08 ∷ [])
    ∷ []

-- encode_multiple_frames
encode_multiple_frames : fragments eight_bytes 4 ≡ ok eight_fragments
unfolding fragments command_byte
encode_multiple_frames = refl

encode_probe : fragments probe 4 ≡ ok ((0x81 ∷ 0x00 ∷ 0x00 ∷ []) ∷ [])
unfolding fragments command_byte
encode_probe = refl

encode_busy : all_fragments (still_busy ∷ []) 4 ≡ ok ((0x82 ∷ 0x00 ∷ 0x01 ∷ 0x01 ∷ []) ∷ [])
unfolding fragments command_byte
encode_busy = refl

recv-after_keepalives_example :
    frame_recv new (
      map notification ((0x82 ∷ 0x00 ∷ 0x01 ∷ 0x01 ∷ []) ∷ [])
      ++ (map notification eight_fragments ++ stream_ended ∷ []))
    ≡ finished (ok eight_bytes) (stream_ended ∷ [])
recv-after_keepalives_example =
    recv-after_keepalives (still_busy ∷ []) eight_bytes 4 ((0x82 ∷ 0x00 ∷ 0x01 ∷ 0x01 ∷ []) ∷ [])
      eight_fragments (stream_ended ∷ []) ((refl, omega arith), tt) refl (omega arith) encode_busy
      encode_multiple_frames

ping-swallows_example :
    frame_recv new
      (map notification ((0x81 ∷ 0x00 ∷ 0x00 ∷ []) ∷ []) ++ map notification eight_fragments)
    ≡ waiting
ping-swallows_example =
    ping-swallows probe 4 ((0x81 ∷ 0x00 ∷ 0x00 ∷ []) ∷ []) eight_fragments refl (omega arith)
      encode_probe (omega arith)

fragments_error_example : error_of (fragments eight_bytes 4) ≡ none
fragments_error_example = fragments_error eight_bytes 4

recv-fragments_example :
    frame_recv new (map notification eight_fragments ++ [])
    ≡ on_frame (record { fragments = eight_fragments }) eight_bytes []
recv-fragments_example =
    recv-fragments eight_bytes 4 eight_fragments [] (omega arith) encode_multiple_frames
