-- ===== src/Hid/Tests.antt =====
-- Runs of the CTAPHID framing on the inputs of framing.rs's own tests, and the theorems at inputs.
use libwebauthn.Prelude.{
  ℕ, ◌≡◌, refl, some, none, false, ◌↔◌, all, is_none, if◌then◌else◌, ◌==◌, List, [], ◌∷◌, ◌++◌, map,
  arith, ok, error_of,
}
use libwebauthn.Hid.Message.{HidMessage, FramingError, command_of_byte, msg, command_byte}
use libwebauthn.Hid.Packets.{packets}
use libwebauthn.Hid.Packets.Sizes.{packets_error}
use libwebauthn.Hid.Parser.{new, update, message, expected_bytes, is_initialization}
use libwebauthn.Hid.Parser.Invariant.{IsWellFormed, update_exact, length-message}
use libwebauthn.Hid.Channel.{finished, report, no_data, hid_recv_hidapi, pad}
use libwebauthn.Hid.Channel.RoundTrip.{recv-packets}

abbrev eight_bytes : HidMessage
eight_bytes = record { cid = 0xC0C1C2C3; cmd = msg; payload = 1 ∷ 2 ∷ 3 ∷ 4 ∷ 5 ∷ 6 ∷ 7 ∷ 8 ∷ [] }

abbrev eight_packets : List (List ℕ)
eight_packets =
    (0xC0 ∷ 0xC1 ∷ 0xC2 ∷ 0xC3 ∷ 0x83 ∷ 0x00 ∷ 0x08 ∷ 0x01 ∷ [])
    ∷ (0xC0 ∷ 0xC1 ∷ 0xC2 ∷ 0xC3 ∷ 0x00 ∷ 0x02 ∷ 0x03 ∷ 0x04 ∷ [])
    ∷ (0xC0 ∷ 0xC1 ∷ 0xC2 ∷ 0xC3 ∷ 0x01 ∷ 0x05 ∷ 0x06 ∷ 0x07 ∷ [])
    ∷ (0xC0 ∷ 0xC1 ∷ 0xC2 ∷ 0xC3 ∷ 0x02 ∷ 0x08 ∷ [])
    ∷ []

-- encode_multiple_packets
encode_multiple_packets : packets eight_bytes 8 ≡ ok eight_packets
unfolding packets command_byte
encode_multiple_packets = refl

recv-packets_example :
    hid_recv_hidapi new (map (λ p. report (pad 8 p)) eight_packets ++ no_data ∷ [])
    ≡ finished (ok eight_bytes) (no_data ∷ [])
recv-packets_example =
    recv-packets eight_bytes 8 8 eight_packets (no_data ∷ []) (omega arith) (omega arith)
      (omega arith) (omega arith) encode_multiple_packets

packets_error_example :
    error_of (packets eight_bytes 7) ≡ some (FramingError.packet_size_unsupported 7)
packets_error_example = packets_error eight_bytes 7

-- The first packet of `eight_bytes`, and the one that follows.
abbrev first_packet : List ℕ
first_packet = 0xC0 ∷ 0xC1 ∷ 0xC2 ∷ 0xC3 ∷ 0x83 ∷ 0x00 ∷ 0x04 ∷ 0x01 ∷ []

abbrev second_packet : List ℕ
second_packet = 0xC0 ∷ 0xC1 ∷ 0xC2 ∷ 0xC3 ∷ 0x00 ∷ 0x02 ∷ 0x03 ∷ 0x04 ∷ []

first_IsWellFormed : IsWellFormed (first_packet ∷ [])
unfolding is_initialization
first_IsWellFormed = (omega arith, refl, tt)

update_exact_example :
    ((error_of (update (record { packets = first_packet ∷ [] }) second_packet).1 ≡ none) ↔ (
      IsWellFormed (first_packet ∷ second_packet ∷ []) × (all (λ b. b == 0) second_packet ≡ false)))
    × ((update (record { packets = first_packet ∷ [] }) second_packet).0 ≡ (
        if is_none (error_of (update (record { packets = first_packet ∷ [] }) second_packet).1)
        then record { packets = first_packet ∷ second_packet ∷ [] }
        else record { packets = first_packet ∷ [] }))
update_exact_example =
    update_exact (record { packets = first_packet ∷ [] }) second_packet first_IsWellFormed

whole_message :
    message (record { packets = first_packet ∷ second_packet ∷ [] })
    ≡ ok (record { cid = 0xC0C1C2C3; cmd = msg; payload = 1 ∷ 2 ∷ 3 ∷ 4 ∷ [] })
unfolding command_byte command_of_byte message
whole_message = refl

length-message_example : expected_bytes (first_packet ∷ second_packet ∷ []) ≡ some 4
length-message_example =
    length-message (record { packets = first_packet ∷ second_packet ∷ [] })
      (record { cid = 0xC0C1C2C3; cmd = msg; payload = 1 ∷ 2 ∷ 3 ∷ 4 ∷ [] }) whole_message
