-- ===== src/Hid/Parser/Steps.antt =====
-- transport/hid/framing.rs: `update` on packets of the form that `packets` gives them.
use libwebauthn.Prelude.{
  ℕ, ◌≤◌, ◌<◌, ◌≡◌, refl, ◌∙◌, bit_and, bit_or, bit_xor, false, none, some, List, [], ◌∷◌, ◌++◌,
  append_assoc, append-nil, ◌==◌, length, drop, take, all, bytes_eq_refl, top_bit, length-drop,
  length-append, read_u16_be, IsU32, u32_be, read_u32_be, ok, arith,
}
use libwebauthn.Hid.Message.{HidCommand, command_byte, command_of_byte}
use libwebauthn.Hid.Parser.{
  refusal, update, payload_len, cont_payload_len, cont_payloads, expected_bytes,
  more_packets_needed, message, state_of, done, more_packets_expected, message_of, assemble,
}

-- A packet is not all zero where its channel is not.
nonzero_cid :
    (cid : ℕ) (rest : List ℕ) → 0 < cid → IsU32 cid → all (λ b. b == 0) (u32_be cid ++ rest) ≡ false
nonzero_cid cid rest h k = ground arith

-- The mark on a command byte, and its removal.
pub marked_byte : (c : HidCommand) → bit_and (bit_or (command_byte c) 0x80) 0x80 ≡ 0x80
unfolding command_byte
marked_byte HidCommand.ping = refl
marked_byte _ = refl

pub unmarked_byte : (c : HidCommand) → bit_xor (bit_or (command_byte c) 0x80) 0x80 ≡ command_byte c
unfolding command_byte
unmarked_byte HidCommand.ping = refl
unmarked_byte _ = refl

pub cont_payload_len-length : (ps : List (List ℕ)) → cont_payload_len ps ≡ length (cont_payloads ps)
unfolding cont_payload_len cont_payloads
cont_payload_len-length [] = refl
cont_payload_len-length (p ∷ ps) = omega (
  arith,
  cont_payload_len-length ps,
  length-append (drop 5 p) (cont_payloads ps),
  length-drop 5 p,
)

pub cont_payloads-append :
    (ps qs : List (List ℕ)) → cont_payloads (ps ++ qs) ≡ cont_payloads ps ++ cont_payloads qs
unfolding cont_payloads
cont_payloads-append [] qs = refl
cont_payloads-append (p ∷ ps) qs = rw (cont_payloads-append ps qs, append_assoc)

pub cont_payloads_nil : cont_payloads [] ≡ []
unfolding cont_payloads
cont_payloads_nil = refl

pub cont_payloads-snoc :
    (ps : List (List ℕ)) (p : List ℕ) → cont_payloads (ps ++ p ∷ []) ≡ cont_payloads ps ++ drop 5 p
cont_payloads-snoc ps p =
    cont_payloads-append ps (p ∷ []) ∙ unfold cont_payloads in rw append-nil refl

module _ (cid : ℕ) (pos : 0 < cid) (fits : IsU32 cid) where
  pub first_taken :
      (c : HidCommand) (hi lo : ℕ) (chunk : List ℕ)
      → refusal [] (u32_be cid ++ (bit_or (command_byte c) 0x80 ∷ hi ∷ lo ∷ chunk)) ≡ none
  unfolding refusal
  first_taken c hi lo chunk = ground (
    arith,
    marked_byte c,
    nonzero_cid cid (bit_or (command_byte c) 0x80 ∷ hi ∷ lo ∷ chunk) pos fits,
  )

  pub next_taken :
      (b : ℕ) (header chunk : List ℕ) (conts : List (List ℕ))
      → length conts < 128
      → refusal ((u32_be cid ++ header) ∷ conts) (u32_be cid ++ (length conts ∷ b ∷ chunk)) ≡ none
  unfolding refusal
  next_taken b header chunk conts h = ground (
    arith,
    top_bit (length conts),
    bytes_eq_refl (u32_be cid),
    nonzero_cid cid (length conts ∷ b ∷ chunk) pos fits,
  )

module _ (acc : List (List ℕ)) (p : List ℕ) (taken : refusal acc p ≡ none) where
  pub update_taken :
      update (record { packets = acc }) p
      ≡ (record { packets = acc ++ p ∷ [] }, ok (state_of (acc ++ p ∷ [])))
  unfolding update
  update_taken = rw taken refl

-- An initial packet with its header spelled out: four bytes of channel, command, length.
module _ (a b c d e hi lo : ℕ) (chunk : List ℕ) (conts : List (List ℕ)) where
  abbrev pub initial : List ℕ
  initial = a ∷ b ∷ c ∷ d ∷ e ∷ hi ∷ lo ∷ chunk

  abbrev pub gathered : List ℕ
  gathered = chunk ++ cont_payloads conts

  pub payload_len-gathered : payload_len (initial ∷ conts) ≡ length gathered
  unfolding payload_len
  payload_len-gathered =
      omega (arith, cont_payload_len-length conts, length-append chunk (cont_payloads conts))

  pub state_more :
      length gathered < read_u16_be hi lo → state_of (initial ∷ conts) ≡ more_packets_expected
  unfolding state_of expected_bytes
  state_more h = ground (arith, payload_len-gathered)

  more_not_needed :
      read_u16_be hi lo ≤ length gathered → more_packets_needed (initial ∷ conts) ≡ false
  unfolding more_packets_needed expected_bytes
  more_not_needed h = ground (arith, payload_len-gathered)

  pub state_done : read_u16_be hi lo ≤ length gathered → state_of (initial ∷ conts) ≡ done
  unfolding state_of
  state_done h = rw (more_not_needed h) refl

  pub message_done :
      (cmd : HidCommand)
      → command_of_byte (bit_xor e 0x80) ≡ some cmd
      → read_u16_be hi lo ≤ length gathered
      → message (record { packets = initial ∷ conts })
        ≡ ok (record {
          cid = read_u32_be a b c d;
          cmd = cmd;
          payload = take (read_u16_be hi lo) gathered;
        })
  unfolding message
  message_done cmd h k = rw (more_not_needed k) (unfold message_of in rw (h, assemble) refl)
