-- ===== src/Hid/Message.antt =====
-- transport/hid/framing.rs: commands, messages and the errors of framing.
use libwebauthn.Prelude.{ℕ, ◌≡◌, refl, Option, none, some, List, arith, ◌==◌, if◌then◌else◌}

pub data HidCommand : Type 0 where
  ping msg lock init wink cbor cancel sync keep_alive error : HidCommand

-- `self.cmd as u8`.
unfoldable pub command_byte : HidCommand → ℕ
command_byte ping = 0x01
command_byte msg = 0x03
command_byte lock = 0x04
command_byte init = 0x06
command_byte wink = 0x08
command_byte cbor = 0x10
command_byte cancel = 0x11
command_byte sync = 0x3C
command_byte keep_alive = 0x3B
command_byte error = 0x3F

-- `HidCommand::try_from(u8)`, as `TryFromPrimitive` derives it.
unfoldable pub command_of_byte : ℕ → Option HidCommand
command_of_byte b =
    if b == 0x01
    then some ping
    else if b == 0x03
    then some msg
    else if b == 0x04
    then some lock
    else if b == 0x06
    then some init
    else if b == 0x08
    then some wink
    else if b == 0x10
    then some cbor
    else if b == 0x11
    then some cancel
    else if b == 0x3C
    then some sync
    else if b == 0x3B
    then some keep_alive
    else if b == 0x3F
    then some error
    else none

pub record HidMessage : Type 0 where
  pub cid : ℕ
  pub cmd : HidCommand
  pub payload : List ℕ

abbrev pub broadcast_cid : ℕ
broadcast_cid = 0xFFFFFFFF

-- `HidMessage::broadcast`.
unfoldable pub broadcast : HidCommand → List ℕ → HidMessage
broadcast cmd payload = record { cid = broadcast_cid; cmd = cmd; payload = payload }

abbrev pub packet_initial_header_size : ℕ
packet_initial_header_size = 7

abbrev pub packet_initial_cmd_mask : ℕ
packet_initial_cmd_mask = 0x80

abbrev pub packet_cont_header_size : ℕ
packet_cont_header_size = 5

abbrev pub packet_cont_seq_max : ℕ
packet_cont_seq_max = 0x7F

pub data IoErrorKind : Type 0 where
  invalid_data invalid_input unexpected_eof : IoErrorKind

-- One constructor for each `IOError` that framing.rs builds; `truncated` is the error of a
-- `byteorder` read past the end. `out_of_rounds` is no error of the program: the sender's loop
-- would have run out of fuel.
pub data FramingError : Type 0 where
  packet_size_unsupported : ℕ → FramingError
  payload_too_large : ℕ → FramingError
  packet_length_invalid all_zero_packet not_initialization cid_mismatch : FramingError
  missing_seq unexpected_initialization too_many_continuations out_of_order_seq : FramingError
  message_incomplete no_packets truncated : FramingError
  invalid_command : ℕ → FramingError
  out_of_rounds : FramingError

unfoldable pub kind : FramingError → IoErrorKind
kind packet_length_invalid = invalid_input
kind truncated = unexpected_eof
kind _ = invalid_data

pub command_of_byte-command_byte : (c : HidCommand) → command_of_byte (command_byte c) ≡ some c
unfolding command_of_byte command_byte
command_of_byte-command_byte ping = refl
command_of_byte-command_byte _ = refl

pub command_byte-command_of_byte :
    (b : ℕ) (c : HidCommand) → command_of_byte b ≡ some c → command_byte c ≡ b
unfolding command_of_byte command_byte
command_byte-command_of_byte b c h = ground arith
