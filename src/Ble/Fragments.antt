-- ===== src/Ble/Fragments.antt =====
-- transport/ble/framing.rs: `BleFrame::fragments`.
pub mod Sizes
use libwebauthn.Prelude.{
  ℕ, zero, suc, ◌+◌, ◌-◌, ◌%◌, List, [], ◌∷◌, ◌++◌, ltb, if◌then◌else◌, length, take, drop, u16_be,
  Result, ok, err, ◌>>=◌,
}
use libwebauthn.Ble.Frame.{
  BleFrame, FramingError, command_byte, fragment_length_unsupported, out_of_rounds,
}

abbrev pub initial_fragment_header_length : ℕ
initial_fragment_header_length = 3

abbrev pub cont_fragment_header_length : ℕ
cont_fragment_header_length = 1

abbrev pub cont_fragment : ℕ → ℕ → List ℕ → List ℕ
cont_fragment max_fragment_length seq message =
    seq ∷ take (max_fragment_length - cont_fragment_header_length) message

-- The loop over the sequence fragments: `message` is what the iterator still holds. The counter is
-- a `u8` that wraps, as it does in a release build; a debug build panics there instead. Every round
-- takes a byte at least, so a round for each byte is enough.
unfoldable pub sequence_fragments : ℕ → ℕ → ℕ → List ℕ → Result FramingError (List (List ℕ))
sequence_fragments fuel max_fragment_length seq [] = ok []
sequence_fragments zero max_fragment_length seq (b ∷ bs) = err out_of_rounds
sequence_fragments (suc fuel) max_fragment_length seq (b ∷ bs) = do
  fragments ←
      sequence_fragments fuel max_fragment_length ((seq + 1) % 256)
        (drop (max_fragment_length - cont_fragment_header_length) (b ∷ bs))
  ok (cont_fragment max_fragment_length seq (b ∷ bs) ∷ fragments)

unfoldable pub initial_fragment : BleFrame → ℕ → List ℕ
initial_fragment frame max_fragment_length =
    command_byte frame.cmd
    ∷ (u16_be (length frame.content % 65536)
        ++ take (max_fragment_length - initial_fragment_header_length) frame.content)

unfoldable pub fragments : BleFrame → ℕ → Result FramingError (List (List ℕ))
unfolding sequence_fragments initial_fragment
fragments frame max_fragment_length =
    if ltb max_fragment_length 4 then err (fragment_length_unsupported max_fragment_length) else do
      rest ←
          sequence_fragments (length frame.content) max_fragment_length 0
            (drop (max_fragment_length - initial_fragment_header_length) frame.content)
      ok (initial_fragment frame max_fragment_length ∷ rest)
