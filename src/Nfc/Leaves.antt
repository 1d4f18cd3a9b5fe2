-- ===== src/Nfc/Leaves.antt =====
-- transport/nfc/channel.rs: what a step of the channel leaves behind: no loop without end, and the
-- messages given so far.
use libwebauthn.Prelude.{
  ℕ, zero, suc, ◌≤◌, ◌<◌, ◌≡◌, ◌≢◌, refl, ap, subst, ◌∙◌, inl, inr, Bool, List, [], ◌∷◌, ◌++◌,
  append-nil, ◌==◌, ltb, length, All, Bool-cases, Result-cases, Result, ok, err, ◌>>=◌, arith,
}
use libwebauthn.Nfc.Channel.{
  NfcError, out_of_rounds, NfcCommand, get_response, ctap_msg, sw1_more_data, buffer_len, Response,
  Reader, ApduCore, in_buffer, transmit, more_data, handle_raw, accepted, handle,
}

-- The messages among the commands: whether more follow, and the bytes.
abbrev pub messages : List NfcCommand → List (Bool × List ℕ)
messages [] = []
messages (get_response le ∷ commands) = messages commands
messages (ctap_msg more bytes ∷ commands) = (more, bytes) ∷ messages commands

abbrev pub InTime : {A : Type 0} → Result NfcError A → Type 0
InTime {A} r = r ≢ err out_of_rounds

messages_append : (xs ys : List NfcCommand) → messages (xs ++ ys) ≡ messages xs ++ messages ys
messages_append [] ys = refl
messages_append (get_response le ∷ xs) ys = messages_append xs ys
messages_append (ctap_msg more bytes ∷ xs) ys = ap (λ l. (more, bytes) ∷ l) (messages_append xs ys)

-- What a step leaves: no loop without fuel, and these messages given so far.
pub record Leaves {A : Type 0} (sent : List (Bool × List ℕ)) (limit : ℕ)
    (r : Result NfcError A × Reader) : Type 0 where
  pub in_time : InTime r.0
  pub answers_in_time : All InTime r.1.answers
  pub given_messages : messages r.1.given ≡ sent
  pub answers_left : length r.1.answers ≤ limit

in_buffer-InTime : (a : Result NfcError (List ℕ)) → InTime a → InTime (in_buffer a)
in_buffer-InTime (err e) h = h
in_buffer-InTime (ok bytes) h = elim (Bool-cases (ltb buffer_len (length bytes))) [
  | inl e ↦ rw e (λ x. cc)
  | inr e ↦ rw e (λ x. cc)
]

answers_to_transmit-Leaves :
    (command : NfcCommand) (answers : List (Result NfcError (List ℕ))) (given : List NfcCommand)
    → All InTime answers
    → Leaves
        (messages given ++ messages (command ∷ []))
        (length answers)
        (transmit command (record { answers = answers; given = given }))
unfolding transmit
answers_to_transmit-Leaves command [] given h = record {
  in_time = λ x. cc;
  answers_in_time = tt;
  given_messages = messages_append given (command ∷ []);
  answers_left = omega arith;
}
answers_to_transmit-Leaves command (answer ∷ rest) given h = record {
  in_time = in_buffer-InTime answer h.0;
  answers_in_time = h.1;
  given_messages = messages_append given (command ∷ []);
  answers_left = omega arith;
}

transmit-Leaves :
    (command : NfcCommand) (r : Reader)
    → All InTime r.answers
    → Leaves (messages r.given ++ messages (command ∷ [])) (length r.answers) (transmit command r)
transmit-Leaves command r h = answers_to_transmit-Leaves command r.answers r.given h

answers_to_transmit-shorter :
    (command : NfcCommand) (answers : List (Result NfcError (List ℕ))) (given : List NfcCommand)
    (bytes : List ℕ)
    → (transmit command (record { answers = answers; given = given })).0 ≡ ok bytes
    → length (transmit command (record { answers = answers; given = given })).1.answers
      < length answers
unfolding transmit
answers_to_transmit-shorter command [] given bytes e = absurd (cc)
answers_to_transmit-shorter command (answer ∷ rest) given bytes e = omega arith

-- An answer of the reader is one less.
transmit-shorter :
    (command : NfcCommand) (r : Reader) (bytes : List ℕ)
    → (transmit command r).0 ≡ ok bytes
    → length (transmit command r).1.answers < length r.answers
transmit-shorter command r bytes e = answers_to_transmit-shorter command r.answers r.given bytes e

module _ (core : ApduCore) where
  more_data-Leaves :
      (sent : List (Bool × List ℕ)) (fuel : ℕ) (rapdu : List ℕ) (response : Response) (r : Reader)
      → length r.answers < fuel
      → All InTime r.answers
      → messages r.given ≡ sent
      → Leaves sent (length r.answers) (more_data core fuel rapdu response r)
  unfolding more_data
  more_data-Leaves sent zero rapdu response r lt h s = absurd (omega arith)
  more_data-Leaves sent (suc fuel) rapdu response r lt h s =
      elim (Bool-cases (response.sw1 == sw1_more_data)) [
        | inr e ↦
            rw (more_data, e)
              (record {
                in_time = λ x. cc;
                answers_in_time = h;
                given_messages = s;
                answers_left = omega arith;
              })
        | inl e ↦
            let answer = transmit (get_response response.sw2) r in
            let told = transmit-Leaves (get_response response.sw2) r h in
            let same = told.given_messages ∙ append-nil (messages r.given) ∙ s in
            elim (Result-cases answer.0) [
              | inl (bytes, b) ↦
                  let shorter = transmit-shorter (get_response response.sw2) r bytes b in
                  let rest =
                    more_data-Leaves sent fuel (rapdu ++ (core.split bytes).payload)
                      (core.split bytes) answer.1 (omega (arith, shorter)) told.answers_in_time
                      same in
                  rw (more_data, e, b)
                    (record {
                      in_time = rest.in_time;
                      answers_in_time = rest.answers_in_time;
                      given_messages = rest.given_messages;
                      answers_left = omega (arith, shorter, rest.answers_left);
                    })
              | inr (failure, b) ↦
                  rw (more_data, e, b)
                    (record {
                      in_time = subst InTime b told.in_time;
                      answers_in_time = told.answers_in_time;
                      given_messages = same;
                      answers_left = told.answers_left;
                    })
            ]
      ]

  handle_raw-Leaves :
      (command : NfcCommand) (r : Reader)
      → All InTime r.answers
      → Leaves
          (messages r.given ++ messages (command ∷ []))
          (length r.answers)
          (handle_raw core command r)
  unfolding handle_raw
  handle_raw-Leaves command r h =
      let answer = transmit command r in
      let told = transmit-Leaves command r h in
      elim (Result-cases answer.0) [
        | inl (bytes, b) ↦
            let rest =
              more_data-Leaves (messages r.given ++ messages (command ∷ []))
                (suc (length answer.1.answers)) (core.split bytes).payload (core.split bytes)
                answer.1 (omega arith) told.answers_in_time told.given_messages in
            rw (handle_raw, b)
              (record {
                in_time = rest.in_time;
                answers_in_time = rest.answers_in_time;
                given_messages = rest.given_messages;
                answers_left = omega (arith, told.answers_left, rest.answers_left);
              })
        | inr (failure, b) ↦
            rw (handle_raw, b)
              (record {
                in_time = subst InTime b told.in_time;
                answers_in_time = told.answers_in_time;
                given_messages = told.given_messages;
                answers_left = told.answers_left;
              })
      ]

  accepted-InTime : (response : Response) → InTime (accepted core response)
  unfolding accepted
  accepted-InTime response = elim (Bool-cases (core.is_success response)) [
    | inl e ↦ rw e (λ x. cc)
    | inr e ↦ rw e (λ x. cc)
  ]

  then_accepted-InTime :
      (raw : Result NfcError (List ℕ))
      → InTime raw
      → InTime (raw >>= λ rapdu. accepted core (core.split rapdu))
  then_accepted-InTime (err e) h = h
  then_accepted-InTime (ok rapdu) h = accepted-InTime (core.split rapdu)

  pub handle-Leaves :
      (command : NfcCommand) (r : Reader)
      → All InTime r.answers
      → Leaves
          (messages r.given ++ messages (command ∷ []))
          (length r.answers)
          (handle core command r)
  unfolding handle
  handle-Leaves command r h =
      let told = handle_raw-Leaves command r h in
      record {
        in_time = then_accepted-InTime (handle_raw core command r).0 told.in_time;
        answers_in_time = told.answers_in_time;
        given_messages = told.given_messages;
        answers_left = told.answers_left;
      }
