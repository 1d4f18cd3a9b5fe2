-- ===== src/Hid/Packets.antt =====
-- transport/hid/framing.rs: `HidMessage::packets`.
pub mod Sizes
use libwebauthn.Prelude.{
  ℕ, zero, suc, ◌+◌, ◌-◌, ◌/◌, ◌%◌, ◌^◌, bit_or, List, [], ◌∷◌, ◌++◌, ltb, if◌then◌else◌, length,
  take, drop, u16_be, u32_be, Result, ok, err, ◌>>=◌,
}
use libwebauthn.Hid.Message.{
  HidMessage, FramingError, command_byte, packet_initial_header_size, packet_initial_cmd_mask,
  packet_cont_header_size, packet_size_unsupported, payload_too_large, out_of_rounds,
}

-- A sequence fragment over what is left of the payload.
abbrev pub cont_packet : ℕ → ℕ → ℕ → List ℕ → List ℕ
cont_packet cid packet_size seq payload =
    u32_be cid ++ (seq ∷ take (packet_size - packet_cont_header_size) payload)

-- The loop over the sequence fragments: `payload` is what the iterator still holds. The counter
-- is a `u8`, and the loop fails as soon as it passes 0x7F, so 128 rounds are all that it makes.
unfoldable pub sequence_fragments : ℕ → ℕ → ℕ → ℕ → List ℕ → Result FramingError (List (List ℕ))
sequence_fragments fuel cid packet_size seq [] = ok []
sequence_fragments zero cid packet_size seq (b ∷ bs) = err out_of_rounds
sequence_fragments (suc fuel) cid packet_size seq (b ∷ bs) =
    let next = (seq + 1) % 256 in
    let rest =
      sequence_fragments fuel cid packet_size next
        (drop (packet_size - packet_cont_header_size) (b ∷ bs)) in
    if ltb 0x7F next
    then err (payload_too_large packet_size)
    else do packets ← rest; ok (cont_packet cid packet_size seq (b ∷ bs) ∷ packets)

unfoldable pub initial_fragment : HidMessage → ℕ → List ℕ
initial_fragment m packet_size =
    u32_be m.cid
    ++ (bit_or (command_byte m.cmd) packet_initial_cmd_mask
        ∷ (u16_be (length m.payload % 65536)
            ++ take (packet_size - packet_initial_header_size) m.payload))

unfoldable pub packets : HidMessage → ℕ → Result FramingError (List (List ℕ))
unfolding sequence_fragments initial_fragment
packets m packet_size =
    if ltb packet_size (packet_initial_header_size + 1)
    then err (packet_size_unsupported packet_size)
    else do
      rest ←
          sequence_fragments 128 m.cid packet_size 0
            (drop (packet_size - packet_initial_header_size) m.payload)
      ok (initial_fragment m packet_size ∷ rest)
