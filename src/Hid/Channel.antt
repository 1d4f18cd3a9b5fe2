-- ===== src/Hid/Channel.antt =====
-- transport/hid/channel.rs: sending a message as reports, and receiving one. What the device, the
-- clock and the cancel handle do is given by events, one for each round of a loop. Poisoned locks
-- and failed task joins are not modelled.
pub mod RoundTrip
use libwebauthn.Prelude.{
  ℕ, zero, suc, ◌+◌, ◌-◌, Bool, true, false, List, [], ◌∷◌, ◌++◌, length, replicate, Result, ok,
  err,
}
use libwebauthn.Hid.Message.{HidCommand, HidMessage, FramingError, cancel, keep_alive}
use libwebauthn.Hid.Packets.{packets}
use libwebauthn.Hid.Parser.{
  HidMessageParser, ParserState, more_packets_expected, done, update, message, new,
}

abbrev pub packet_size : ℕ
packet_size = 64

abbrev pub report_id : ℕ
report_id = 0x00

pub data HidError : Type 0 where
  cancelled timeout write read : HidError
  packet_encode : FramingError → HidError
  frame_parse : FramingError → HidError

-- What a round of the sending loop meets: a pending cancellation, or the result of the write.
pub data SendEvent : Type 0 where
  cancel_pending written write_failed : SendEvent

abbrev pub pad : ℕ → List ℕ → List ℕ
pad size packet = packet ++ replicate (size - length packet) 0

abbrev pub report_of : List ℕ → List ℕ
report_of packet = report_id ∷ pad packet_size packet

-- The reports written, and the result.
pub write_reports : (ℕ → SendEvent) → ℕ → List (List ℕ) → List (List ℕ) × Result HidError (Unit {0})
write_reports events i [] = ([], ok tt)
write_reports events i (packet ∷ rest) =
    let (more, result) = write_reports events (i + 1) rest in
    elim (events i) [
      | cancel_pending ↦ ([], err cancelled)
      | written ↦ (report_of packet ∷ more, result)
      | write_failed ↦ ([], err write)
    ]

pub hid_send_hidapi : (ℕ → SendEvent) → HidMessage → List (List ℕ) × Result HidError (Unit {0})
unfolding write_reports
hid_send_hidapi events m = elim (packets m packet_size) [
  | ok ps ↦ write_reports events 0 ps
  | err e ↦ ([], err (packet_encode e))
]

abbrev pub cancel_message : ℕ → HidMessage
cancel_message cid = record { cid = cid; cmd = cancel; payload = [] }

-- `hid_send` on a hidapi device: a cancelled send is followed by CTAPHID_CANCEL on the channel,
-- whose own result is dropped. `retry` are the events of that second send.
pub hid_send :
    (ℕ → SendEvent) → (ℕ → SendEvent) → ℕ → HidMessage → List (List ℕ) × Result HidError (Unit {0})
hid_send events retry cid m =
    let (reports, result) = hid_send_hidapi events m in
    elim result [
      | err cancelled ↦ (reports ++ (hid_send_hidapi retry (cancel_message cid)).0, err cancelled)
      | other ↦ (reports, other)
    ]

-- What a round of the receiving loop meets, in the order of its tests. The report is the buffer of
-- 64 bytes that `read_timeout` filled.
pub data RecvEvent : Type 0 where
  cancel_request deadline_passed read_failed no_data : RecvEvent
  report : List ℕ → RecvEvent

-- `waiting` when the events end before the loop does.
pub data RecvOutcome : Type 0 where
  waiting : RecvOutcome
  finished : Result HidError HidMessage → List RecvEvent → RecvOutcome

pub frame_result : Result FramingError HidMessage → Result HidError HidMessage
frame_result (ok m) = ok m
frame_result (err e) = err (frame_parse e)

pub hid_recv_hidapi : HidMessageParser → List RecvEvent → RecvOutcome
unfolding frame_result
hid_recv_hidapi parser [] = waiting
hid_recv_hidapi parser (cancel_request ∷ events) = finished (err cancelled) events
hid_recv_hidapi parser (deadline_passed ∷ events) = finished (err timeout) events
hid_recv_hidapi parser (read_failed ∷ events) = finished (err read) events
hid_recv_hidapi parser (no_data ∷ events) = hid_recv_hidapi parser events
hid_recv_hidapi parser (report r ∷ events) =
    let (parser', result) = update parser r in
    let more = hid_recv_hidapi parser' events in
    elim result [
      | err e ↦ finished (err (frame_parse e)) events
      | ok more_packets_expected ↦ more
      | ok done ↦ finished (frame_result (message parser')) events
    ]

-- The messages that `hid_recv` sends while it waits, and how it ends.
pub record Received : Type 0 where
  pub sent : List HidMessage
  pub outcome : RecvOutcome

gives_up : HidError → Bool
gives_up cancelled = true
gives_up timeout = true
gives_up _ = false

-- `hid_recv`: keep-alive messages are dropped; giving up sends CTAPHID_CANCEL. Every round that
-- goes on has used up an event, so a round for each event is enough.
pub hid_recv_loop : ℕ → ℕ → List RecvEvent → Received
unfolding gives_up
hid_recv_loop zero cid events = record { sent = []; outcome = waiting }
hid_recv_loop (suc fuel) cid events = elim (hid_recv_hidapi new events) [
  | waiting ↦ record { sent = []; outcome = waiting }
  | finished (err e) rest ↦ record {
    sent = elim (gives_up e) [ true ↦ cancel_message cid ∷ [] | false ↦ [] ];
    outcome = finished (err e) rest;
  }
  | finished (ok m) rest ↦ elim m.cmd [
    | keep_alive ↦ hid_recv_loop fuel cid rest
    | _ ↦ record { sent = []; outcome = finished (ok m) rest }
  ]
]

pub hid_recv : ℕ → List RecvEvent → Received
unfolding hid_recv_loop
hid_recv cid events = hid_recv_loop (suc (length events)) cid events
