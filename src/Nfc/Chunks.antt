-- ===== src/Nfc/Chunks.antt =====
-- transport/nfc/channel.rs: `cbor_send` ends, and what it sends are the chunks of the message.
use libwebauthn.Prelude.{
  ℕ, zero, suc, ◌≤◌, ◌<◌, ◌≡◌, refl, sym, ap, subst, ◌∙◌, inl, inr, Bool, true, false, List, [],
  ◌∷◌, ◌++◌, append_assoc, ltb, length, take, drop, take-append-drop, length-take, length-drop, All,
  Bool-cases, Result-cases, ok, err, arith,
}
use libwebauthn.Nfc.Channel.{NfcError, ctap_msg, chunk_len, Reader, ApduCore, handle, cbor_send}
use libwebauthn.Nfc.Leaves.{messages, InTime, handle-Leaves}

-- Chunks of a message: full ones that say that more follow, and the last one, which says not.
abbrev pub Chunks : List ℕ → List (Bool × List ℕ) → Type 0
Chunks message [] = ⊥
Chunks message ((more, bytes) ∷ []) =
    (more ≡ false) × (bytes ≡ message) × (length bytes ≤ chunk_len)
Chunks message ((more, bytes) ∷ next ∷ chunks) =
    (more ≡ true)
    × (length bytes ≡ chunk_len)
    × ((rest : List ℕ) × (message ≡ bytes ++ rest) × Chunks rest (next ∷ chunks))

last_chunk :
    (message : List ℕ) → ltb chunk_len (length message) ≡ false → length message ≤ chunk_len
last_chunk message e = ground arith

full_take : (n : ℕ) (xs : List ℕ) → n < length xs → length (take n xs) ≡ n
full_take n xs lt = omega (arith, length-take n xs)

full_chunk :
    (message : List ℕ)
    → ltb chunk_len (length message) ≡ true
    → length (take chunk_len message) ≡ chunk_len
full_chunk message e = full_take chunk_len message (ground arith)

fewer :
    (message : List ℕ) (fuel : ℕ)
    → ltb chunk_len (length message) ≡ true
    → length message < suc fuel
    → length (drop chunk_len message) < fuel
fewer message fuel e lt = ground (arith, length-drop chunk_len message)

chunk_more :
    {message : List ℕ} (bytes rest : List ℕ) (chunks : List (Bool × List ℕ))
    → length bytes ≡ chunk_len
    → message ≡ bytes ++ rest
    → Chunks rest chunks
    → Chunks message ((true, bytes) ∷ chunks)
chunk_more bytes rest [] full e c = absurd c
chunk_more bytes rest (chunk ∷ chunks) full e c = (refl, full, (rest, e, c))

module _ (core : ApduCore) where
  -- The chaining of a message always ends, with one round more than the message has bytes: every
  -- round takes a whole chunk off, and no round waits on the loop over a response that comes in
  -- pieces, which ends with the reader's answers. The reader itself does not give that error.
  pub cbor_send-InTime :
      (fuel : ℕ) (message : List ℕ) (r : Reader)
      → length message < fuel
      → All InTime r.answers
      → InTime (cbor_send core fuel message r).0
  unfolding cbor_send
  cbor_send-InTime zero message r lt h = absurd (omega arith)
  cbor_send-InTime (suc fuel) message r lt h = elim (Bool-cases (ltb chunk_len (length message))) [
    | inr e ↦ rw (cbor_send, e) (handle-Leaves core (ctap_msg false message) r h).in_time
    | inl e ↦
        let command = ctap_msg true (take chunk_len message) in
        let told = handle-Leaves core command r h in
        elim (Result-cases (handle core command r).0) [
          | inl (answer, b) ↦
              rw (cbor_send, e, b)
                (cbor_send-InTime fuel (drop chunk_len message) (handle core command r).1
                  (fewer message fuel e lt) told.answers_in_time)
          | inr (failure, b) ↦ rw (cbor_send, e, b) (subst InTime b told.in_time)
        ]
  ]

  next_round :
      (fuel : ℕ) (message : List ℕ) (r : Reader) {answer : List ℕ}
      → ltb chunk_len (length message) ≡ true
      → (handle core (ctap_msg true (take chunk_len message)) r).0 ≡ ok answer
      → cbor_send core (suc fuel) message r
        ≡ cbor_send core fuel
            (drop chunk_len message)
            (handle core (ctap_msg true (take chunk_len message)) r).1
  unfolding cbor_send
  next_round fuel message r e b = rw (cbor_send, e, b) refl

  failed_round :
      (fuel : ℕ) (message : List ℕ) (r : Reader) {failure : NfcError}
      → ltb chunk_len (length message) ≡ true
      → (handle core (ctap_msg true (take chunk_len message)) r).0 ≡ err failure
      → (cbor_send core (suc fuel) message r).0 ≡ err failure
  unfolding cbor_send
  failed_round fuel message r e b = rw (cbor_send, e, b) refl

  -- A message that was accepted has gone out as its chunks: full ones of 250 bytes that each say that
  -- more follow, then one of at most 250 that does not, and put together they are the message. The
  -- requests for the rest of a response stand between them and are not among them.
  pub cbor_send-Chunks :
      (fuel : ℕ) (message : List ℕ) (r : Reader) (answer : List ℕ)
      → length message < fuel
      → All InTime r.answers
      → (cbor_send core fuel message r).0 ≡ ok answer
      → (sent : List (Bool × List ℕ)) × (messages (cbor_send core fuel message r).1.given
          ≡ messages r.given ++ sent)
        × Chunks message sent
  unfolding cbor_send
  cbor_send-Chunks zero message r answer lt h accepts = absurd (omega arith)
  cbor_send-Chunks (suc fuel) message r answer lt h accepts =
      elim (Bool-cases (ltb chunk_len (length message))) [
        | inr e ↦ (
          (false, message) ∷ [],
          rw (cbor_send, e) (handle-Leaves core (ctap_msg false message) r h).given_messages,
          (refl, refl, last_chunk message e),
        )
        | inl e ↦
            let command = ctap_msg true (take chunk_len message) in
            let told = handle-Leaves core command r h in
            elim (Result-cases (handle core command r).0) [
              | inl (step, b) ↦
                  let (sent, given, chunks) =
                    cbor_send-Chunks fuel (drop chunk_len message) (handle core command r).1 answer
                      (fewer message fuel e lt) told.answers_in_time
                      (sym (ap (λ s. s.0) (next_round fuel message r e b)) ∙ accepts) in
                  (
                    (true, take chunk_len message) ∷ sent,
                    rw (cbor_send, e, b)
                        (given
                          ∙ ap (λ l. l ++ sent) told.given_messages
                          ∙ append_assoc (messages r.given) (messages (command ∷ [])) sent),
                    chunk_more (take chunk_len message) (drop chunk_len message) sent
                        (full_chunk message e) (sym (take-append-drop chunk_len message)) chunks,
                  )
              | inr (failure, b) ↦ absurd (cc (failed_round fuel message r e b, accepts))
            ]
      ]
