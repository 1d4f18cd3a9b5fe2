-- ===== src/Ble/Frame.antt =====
-- transport/ble/framing.rs: commands, frames and the errors of framing.
use libwebauthn.Prelude.{ℕ, ◌≡◌, refl, Option, none, some, List, ◌==◌, if◌then◌else◌}

pub data BleCommand : Type 0 where
  ping keepalive msg cancel error : BleCommand

unfoldable pub command_byte : BleCommand → ℕ
command_byte ping = 0x81
command_byte keepalive = 0x82
command_byte msg = 0x83
command_byte cancel = 0xBE
command_byte error = 0xBF

-- `BleCommand::try_from(u8)`, as `TryFromPrimitive` derives it.
unfoldable pub command_of_byte : ℕ → Option BleCommand
command_of_byte b =
    if b == 0x81
    then some ping
    else if b == 0x82
    then some keepalive
    else if b == 0x83
    then some msg
    else if b == 0xBE
    then some cancel
    else if b == 0xBF
    then some error
    else none

-- The field `data`, whose name is reserved here, is `content`.
pub record BleFrame : Type 0 where
  pub cmd : BleCommand
  pub content : List ℕ

-- One constructor for each `IOError` of framing.rs. `out_of_rounds` is no error of the program.
pub data FramingError : Type 0 where
  fragment_length_unsupported : ℕ → FramingError
  fragment_length_invalid frame_incomplete no_fragments empty_initial : FramingError
  invalid_command : ℕ → FramingError
  out_of_rounds : FramingError

pub command_of_byte-command_byte : (c : BleCommand) → command_of_byte (command_byte c) ≡ some c
unfolding command_of_byte command_byte
command_of_byte-command_byte ping = refl
command_of_byte-command_byte _ = refl
