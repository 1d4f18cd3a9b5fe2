-- ===== src/Ble/Parser.antt =====
-- transport/ble/framing.rs: `BleFrameParser`.
pub mod Steps
use libwebauthn.Prelude.{
  ℕ, ◌+◌, ◌-◌, ◌*◌, Bool, true, false, ◌&&◌, ◌||◌, Option, none, some, List, [], ◌∷◌, ◌++◌, ltb,
  if◌then◌else◌, length, get_elem?, drop, read_u16_be, Result, ok, err,
}
use libwebauthn.Ble.Frame.{
  BleCommand, BleFrame, FramingError, command_of_byte, fragment_length_invalid, frame_incomplete,
  no_fragments, empty_initial, invalid_command,
}
use libwebauthn.Ble.Fragments.{initial_fragment_header_length, cont_fragment_header_length}

pub data ParserResult : Type 0 where
  more_fragments_expected done : ParserResult

pub record BleFrameParser : Type 0 where
  pub fragments : List (List ℕ)

abbrev pub new : BleFrameParser
new = record { fragments = [] }

-- `reset`.
unfoldable pub reset : BleFrameParser → BleFrameParser
reset parser = record { fragments = [] }

is_empty : List (List ℕ) → Bool
is_empty [] = true
is_empty (f ∷ fs) = false

pub expected_bytes : List (List ℕ) → Option ℕ
expected_bytes [] = none
expected_bytes (initial ∷ conts) = elim (get_elem? initial 1) [
  | none ↦ none
  | some b1 ↦ elim (get_elem? initial 2) [ none ↦ none | some b2 ↦ some (read_u16_be b1 b2) ]
]

pub cont_len : List (List ℕ) → ℕ
cont_len [] = 0
cont_len (f ∷ fs) = (length f - cont_fragment_header_length) + cont_len fs

pub data_len : List (List ℕ) → ℕ
unfolding cont_len
data_len [] = 0
data_len (initial ∷ conts) = (length initial - initial_fragment_header_length) + cont_len conts

unwrap_or_zero : Option ℕ → ℕ
unwrap_or_zero none = 0
unwrap_or_zero (some n) = n

pub more_fragments_needed : List (List ℕ) → Bool
unfolding is_empty unwrap_or_zero
more_fragments_needed fragments =
    if is_empty fragments
    then true
    else ltb (data_len fragments) (unwrap_or_zero (expected_bytes fragments))

pub update : BleFrameParser → List ℕ → BleFrameParser × Result FramingError ParserResult
unfolding is_empty
update parser fragment =
    if is_empty parser.fragments && ltb (length fragment) initial_fragment_header_length
      || ltb (length fragment) cont_fragment_header_length
    then (parser, err fragment_length_invalid)
    else (let fragments = parser.fragments ++ fragment ∷ [] in
        (
          record { fragments = fragments },
          ok (if more_fragments_needed fragments then more_fragments_expected else done),
        ))

pub cont_data : List (List ℕ) → List ℕ
cont_data [] = []
cont_data (f ∷ fs) = drop cont_fragment_header_length f ++ cont_data fs

pub assemble : List ℕ → List (List ℕ) → Result FramingError BleFrame
unfolding cont_data
assemble [] conts = err empty_initial
assemble (cmd_byte ∷ rest) conts = elim (command_of_byte cmd_byte) [
  | none ↦ err (invalid_command cmd_byte)
  | some cmd ↦ ok (record {
    cmd = cmd;
    content = drop initial_fragment_header_length (cmd_byte ∷ rest) ++ cont_data conts;
  })
]

pub frame_of : List (List ℕ) → Result FramingError BleFrame
unfolding assemble
frame_of [] = err no_fragments
frame_of (initial ∷ conts) = assemble initial conts

pub frame : BleFrameParser → Result FramingError BleFrame
unfolding frame_of
frame parser =
    if more_fragments_needed parser.fragments
    then err frame_incomplete
    else frame_of parser.fragments
