-- ===== src/Ble/Connection.antt =====
-- transport/ble/btleplug/connection.rs: sending a frame, and receiving one. What the peripheral does
-- is given by arguments: the bytes of the control point length, whether each write succeeds, and
-- the notifications with their timeouts.
pub mod Keepalive
pub mod RoundTrip
pub mod Ping
use libwebauthn.Prelude.{
  ℕ, ◌+◌, ◌*◌, Bool, true, false, Option, none, some, List, [], ◌∷◌, read_u16_be, Result, ok, err,
  ◌>>=◌,
}
use libwebauthn.Ble.Frame.{BleCommand, BleFrame, FramingError, ping, keepalive, msg, cancel, error}
use libwebauthn.Ble.Fragments.{fragments}
use libwebauthn.Ble.Parser.{
  BleFrameParser, ParserResult, more_fragments_expected, done, new, reset, update, frame,
}

pub data ConnectionError : Type 0 where
  connection_failed timeout invalid_framing canceled operation_failed : ConnectionError

-- The bytes read from the endpoint, or `none` when the read fails.
pub control_point_length : Option (List ℕ) → Result ConnectionError ℕ
control_point_length (some (hi ∷ lo ∷ [])) = ok (read_u16_be hi lo)
control_point_length _ = err operation_failed

-- The fragments written, up to the first write that fails.
pub write_fragments :
    (ℕ → Bool) → ℕ → List (List ℕ) → List (List ℕ) × Result ConnectionError (Unit {0})
write_fragments writes i [] = ([], ok tt)
write_fragments writes i (f ∷ fs) =
    let (more, result) = write_fragments writes (i + 1) fs in
    elim (writes i) [ true ↦ (f ∷ more, result) | false ↦ ([], err operation_failed) ]

pub send_fragments : (ℕ → Bool) → BleFrame → ℕ → List (List ℕ) × Result ConnectionError (Unit {0})
unfolding write_fragments
send_fragments writes f size = elim (fragments f size) [
  | ok fs ↦ write_fragments writes 0 fs
  | err e ↦ ([], err invalid_framing)
]

pub frame_send :
    Option (List ℕ) → (ℕ → Bool) → BleFrame → List (List ℕ) × Result ConnectionError (Unit {0})
unfolding control_point_length send_fragments
frame_send endpoint writes f = elim (control_point_length endpoint) [
  | ok size ↦ send_fragments writes f size
  | err e ↦ ([], err e)
]

abbrev pub cancel_frame : BleFrame
cancel_frame = record { cmd = cancel; content = [] }

size_or_default : Result ConnectionError ℕ → ℕ
size_or_default (ok size) = size
size_or_default (err e) = 20

-- The best-effort Cancel that follows a timeout.
pub send_cancel : Option (List ℕ) → (ℕ → Bool) → List (List ℕ) × Result ConnectionError (Unit {0})
unfolding size_or_default control_point_length send_fragments
send_cancel endpoint writes =
    send_fragments writes cancel_frame (size_or_default (control_point_length endpoint))

-- What `frame_recv` waits for.
pub data RecvEvent : Type 0 where
  notification : List ℕ → RecvEvent
  stream_ended timed_out : RecvEvent

-- `waiting` when the events end before the loop does. After `timed_out` the program also sends
-- `send_cancel`, whose result it drops.
pub data RecvOutcome : Type 0 where
  waiting : RecvOutcome
  finished : Result ConnectionError BleFrame → List RecvEvent → RecvOutcome

pub frame_recv : BleFrameParser → List RecvEvent → RecvOutcome
unfolding reset
frame_recv parser [] = waiting
frame_recv parser (stream_ended ∷ events) = finished (err connection_failed) events
frame_recv parser (timed_out ∷ events) = finished (err timeout) events
frame_recv parser (notification fragment ∷ events) =
    let (parser', status) = update parser fragment in
    elim status [
      | err e ↦ finished (err invalid_framing) events
      | ok more_fragments_expected ↦ frame_recv parser' events
      | ok done ↦ elim (frame parser') [
        | err e ↦ finished (err invalid_framing) events
        | ok f ↦ elim f.cmd [
          | keepalive ↦ frame_recv (reset parser') events
          | cancel ↦ finished (err canceled) events
          | error ↦ finished (err operation_failed) events
          | ping ↦ frame_recv parser' events
          | msg ↦ finished (ok f) events
        ]
      ]
    ]
