-- ===== src/Hid/Parser.antt =====
-- transport/hid/framing.rs: `HidMessageParser`.
pub mod Steps
pub mod Invariant
use libwebauthn.Prelude.{
  ℕ, ◌+◌, ◌-◌, ◌%◌, bit_and, bit_xor, Bool, true, false, not, ◌&&◌, ◌||◌, Option, none, some, List,
  [], ◌∷◌, ◌++◌, ltb, ◌==◌, if◌then◌else◌, length, get_elem?, take, drop, all, prefix?, bytes_eq,
  read_u16_be, read_u32_be, Result, ok, err,
}
use libwebauthn.Hid.Message.{
  HidCommand, HidMessage, FramingError, command_of_byte, packet_initial_header_size,
  packet_initial_cmd_mask, packet_cont_header_size, packet_cont_seq_max, packet_length_invalid,
  all_zero_packet, not_initialization, cid_mismatch, missing_seq, unexpected_initialization,
  too_many_continuations, out_of_order_seq, message_incomplete, no_packets, truncated,
  invalid_command,
}

pub data ParserState : Type 0 where
  more_packets_expected done : ParserState

pub record HidMessageParser : Type 0 where
  pub packets : List (List ℕ)

abbrev pub new : HidMessageParser
new = record { packets = [] }

is_empty : List (List ℕ) → Bool
is_empty [] = true
is_empty (p ∷ ps) = false

-- `==` on `Option<&[u8]>`.
pub option_bytes_eq : Option (List ℕ) → Option (List ℕ) → Bool
option_bytes_eq none none = true
option_bytes_eq (some a) (some b) = bytes_eq a b
option_bytes_eq _ _ = false

-- The tests on a continuation packet's sequence number.
pub check_seq : ℕ → Option ℕ → Option FramingError
check_seq count none = some missing_seq
check_seq count (some seq) =
    let expected_seq = (count - 1) % 256 in
    if not (bit_and seq packet_initial_cmd_mask == 0)
    then some unexpected_initialization
    else if ltb packet_cont_seq_max expected_seq
    then some too_many_continuations
    else if not (seq == expected_seq)
    then some out_of_order_seq
    else none

-- `packet.get(4).is_some_and(|&byte| byte & PACKET_INITIAL_CMD_MASK != 0)`.
unfoldable pub is_initialization : Option ℕ → Bool
is_initialization none = false
is_initialization (some byte) = not (bit_and byte packet_initial_cmd_mask == 0)

pub check_order : List (List ℕ) → List ℕ → Option FramingError
unfolding is_initialization option_bytes_eq check_seq
check_order [] packet =
    if not (is_initialization (get_elem? packet 4)) then some not_initialization else none
check_order (initial ∷ conts) packet =
    if not (option_bytes_eq (prefix? 4 packet) (prefix? 4 initial))
    then some cid_mismatch
    else check_seq (length (initial ∷ conts)) (get_elem? packet 4)

-- The early returns of `update`, in their order; `none` when the packet is taken.
pub refusal : List (List ℕ) → List ℕ → Option FramingError
unfolding is_empty check_order
refusal packets packet =
    if is_empty packets && ltb (length packet) packet_initial_header_size
      || ltb (length packet) (packet_cont_header_size + 1)
    then some packet_length_invalid
    else if all (λ b. b == 0) packet
    then some all_zero_packet
    else check_order packets packet

pub expected_bytes : List (List ℕ) → Option ℕ
expected_bytes [] = none
expected_bytes (initial ∷ conts) = elim (get_elem? initial 5) [
  | none ↦ none
  | some b5 ↦ elim (get_elem? initial 6) [ none ↦ none | some b6 ↦ some (read_u16_be b5 b6) ]
]

pub cont_payload_len : List (List ℕ) → ℕ
cont_payload_len [] = 0
cont_payload_len (p ∷ ps) = (length p - packet_cont_header_size) + cont_payload_len ps

pub payload_len : List (List ℕ) → ℕ
unfolding cont_payload_len
payload_len [] = 0
payload_len (initial ∷ conts) =
    (length initial - packet_initial_header_size) + cont_payload_len conts

pub more_packets_needed : List (List ℕ) → Bool
unfolding expected_bytes payload_len
more_packets_needed packets = elim (expected_bytes packets) [
  | none ↦ true
  | some expected ↦ ltb (payload_len packets) expected
]

pub state_of : List (List ℕ) → ParserState
unfolding more_packets_needed
state_of packets = if more_packets_needed packets then more_packets_expected else done

pub after_check :
    HidMessageParser
    → List ℕ
    → Option FramingError
    → HidMessageParser × Result FramingError ParserState
unfolding state_of
after_check parser packet (some e) = (parser, err e)
after_check parser packet none =
    let packets = parser.packets ++ packet ∷ [] in
    (record { packets = packets }, ok (state_of packets))

pub update : HidMessageParser → List ℕ → HidMessageParser × Result FramingError ParserState
unfolding after_check refusal
update parser packet = after_check parser packet (refusal parser.packets packet)

pub cont_payloads : List (List ℕ) → List ℕ
cont_payloads [] = []
cont_payloads (p ∷ ps) = drop packet_cont_header_size p ++ cont_payloads ps

pub sized : ℕ → HidCommand → List ℕ → List (List ℕ) → Result FramingError HidMessage
unfolding cont_payloads
sized cid cmd (hi ∷ lo ∷ payload) conts = ok (record {
  cid = cid;
  cmd = cmd;
  payload = take (read_u16_be hi lo) (payload ++ cont_payloads conts);
})
sized cid cmd _ conts = err truncated

-- The reads of the cursor over the initial packet, and the payloads behind it.
pub assemble : List ℕ → List (List ℕ) → Result FramingError HidMessage
unfolding sized
assemble (c0 ∷ c1 ∷ c2 ∷ c3 ∷ b ∷ rest) conts =
    elim (command_of_byte (bit_xor b packet_initial_cmd_mask)) [
      | none ↦ err (invalid_command (bit_xor b packet_initial_cmd_mask))
      | some cmd ↦ sized (read_u32_be c0 c1 c2 c3) cmd rest conts
    ]
assemble _ conts = err truncated

pub message_of : List (List ℕ) → Result FramingError HidMessage
unfolding assemble
message_of [] = err no_packets
message_of (initial ∷ conts) = assemble initial conts

unfoldable pub message : HidMessageParser → Result FramingError HidMessage
unfolding message_of more_packets_needed
message parser =
    if more_packets_needed parser.packets then err message_incomplete else message_of parser.packets
