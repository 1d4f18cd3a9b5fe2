-- ===== src/Hid/Channel/RoundTrip.antt =====
-- transport/hid: what `packets` makes of a message, read back by `hid_recv_hidapi`.
use libwebauthn.Prelude.{
  ℕ, zero, suc, ◌+◌, ◌-◌, ◌/◌, ◌%◌, ◌≤◌, ◌<◌, ◌≡◌, refl, inl, inr, ◌∙◌, ap, sym, bit_or, none, some,
  List, [], ◌∷◌, ◌++◌, map, append_assoc, append-nil, length, drop, take, replicate, length-take,
  length-drop, length-append, take-append-drop, List-cases, take_append, read_u16_be, IsU32, u32_be,
  read_u32_be-u32_be, bit_xor, ok, arith,
}
use libwebauthn.Hid.Message.{
  HidMessage, command_byte, command_of_byte, command_of_byte-command_byte,
}
use libwebauthn.Hid.Packets.{sequence_fragments, initial_fragment, cont_packet, packets}
use libwebauthn.Hid.Packets.Sizes.{packets_inv, fragments_cons, fragments_nil}
use libwebauthn.Hid.Parser.{
  new, refusal, state_of, message, cont_payloads, more_packets_expected, done,
}
use libwebauthn.Hid.Parser.Steps.{
  update_taken, first_taken, next_taken, state_more, state_done, message_done, cont_payloads-snoc,
  cont_payloads_nil, unmarked_byte,
}
use libwebauthn.Hid.Channel.{RecvEvent, finished, report, hid_recv_hidapi, pad}

recv_more :
    (acc : List (List ℕ)) (p : List ℕ) (events : List RecvEvent)
    → refusal acc p ≡ none
    → state_of (acc ++ p ∷ []) ≡ more_packets_expected
    → hid_recv_hidapi (record { packets = acc }) (report p ∷ events)
      ≡ hid_recv_hidapi (record { packets = acc ++ p ∷ [] }) events
unfolding hid_recv_hidapi
recv_more acc p events taken more = ground (arith, update_taken acc p taken)

recv_done :
    (acc : List (List ℕ)) (p : List ℕ) (events : List RecvEvent) (m : HidMessage)
    → refusal acc p ≡ none
    → state_of (acc ++ p ∷ []) ≡ done
    → message (record { packets = acc ++ p ∷ [] }) ≡ ok m
    → hid_recv_hidapi (record { packets = acc }) (report p ∷ events) ≡ finished (ok m) events
unfolding hid_recv_hidapi
recv_done acc p events m taken end e = ground (arith, update_taken acc p taken)

-- The initial packet of a message, with a chunk of its payload.
abbrev header : HidMessage → List ℕ → List ℕ
header m chunk =
    u32_be m.cid
    ++ (bit_or (command_byte m.cmd) 0x80
        ∷ length m.payload / 256 % 256
        ∷ length m.payload % 256
        ∷ chunk)

module _ (m : HidMessage) (pos : 0 < m.cid) (fits : IsU32 m.cid)
    (short : length m.payload < 65536) where
  abbrev total : ℕ
  total = read_u16_be (length m.payload / 256 % 256) (length m.payload % 256)

  total-length : total ≡ length m.payload
  total-length = omega arith

  rebuilt :
      (cid : ℕ) (payload : List ℕ)
      → cid ≡ m.cid
      → payload ≡ m.payload
      → record { cid = cid; cmd = m.cmd; payload = payload } ≡ m
  rebuilt cid payload p q = λ i. record { cid = p i; cmd = m.cmd; payload = q i }

  -- When all of the payload is there, padding does not matter.
  message_whole :
      (chunk : List ℕ) (conts : List (List ℕ)) (zeros : List ℕ)
      → chunk ++ cont_payloads conts ≡ m.payload ++ zeros
      → (state_of (header m chunk ∷ conts) ≡ done)
        × (message (record { packets = header m chunk ∷ conts }) ≡ ok m)
  message_whole chunk conts zeros e =
      let enough : total ≤ length (chunk ++ cont_payloads conts) =
        rw e (omega (arith, length-append m.payload zeros)) in
      let cut : take total (chunk ++ cont_payloads conts) ≡ m.payload =
        rw (total-length, e) (take_append m.payload zeros) in
      let known : command_of_byte (bit_xor (bit_or (command_byte m.cmd) 0x80) 0x80) ≡ some m.cmd =
        rw (unmarked_byte m.cmd) (command_of_byte-command_byte m.cmd) in
      (
        state_done _ _ _ _ _ _ _ chunk conts enough,
        message_done _ _ _ _ _ _ _ chunk conts m.cmd known enough
            ∙ ap ok (rebuilt _ _ (read_u32_be-u32_be m.cid fits) cut),
      )

  -- While some of the payload is missing, more packets are expected.
  message_partial :
      (chunk : List ℕ) (conts : List (List ℕ)) (c : ℕ) (cs : List ℕ)
      → (chunk ++ cont_payloads conts) ++ (c ∷ cs) ≡ m.payload
      → state_of (header m chunk ∷ conts) ≡ more_packets_expected
  message_partial chunk conts c cs e = state_more _ _ _ _ _ _ _ chunk conts (
      omega
        (arith, total-length, ap length e, length-append (chunk ++ cont_payloads conts) (c ∷ cs)))

  module _ (size n k : ℕ) (es : size - 5 ≡ suc n) (ek : k ≤ size) where
    -- A sequence packet with its first payload byte in sight.
    abbrev padded : ℕ → ℕ → List ℕ → List ℕ
    padded seq b bs = pad k (cont_packet m.cid size seq (b ∷ bs))

    zeros_of : ℕ → ℕ → List ℕ → List ℕ
    zeros_of seq b bs = replicate (k - length (cont_packet m.cid size seq (b ∷ bs))) 0

    padded_lem :
        (seq b : ℕ) (bs : List ℕ)
        → padded seq b bs ≡ u32_be m.cid ++ (seq ∷ b ∷ (take n bs ++ zeros_of seq b bs))
    unfolding zeros_of
    padded_lem seq b bs = rw es refl

    padded_taken :
        (chunk : List ℕ) (conts : List (List ℕ)) (seq b : ℕ) (bs : List ℕ)
        → length conts ≡ seq
        → seq < 127
        → refusal (header m chunk ∷ conts) (padded seq b bs) ≡ none
    padded_taken chunk conts seq b bs e h =
        rw (padded_lem seq b bs, ← e)
          (next_taken m.cid pos fits b _ (take n bs ++ zeros_of (length conts) b bs) conts
            (omega arith))

    drop-padded :
        (seq b : ℕ) (bs : List ℕ)
        → drop 5 (padded seq b bs) ≡ take (size - 5) (b ∷ bs) ++ zeros_of seq b bs
    drop-padded seq b bs = rw (padded_lem seq b bs, es) refl

    zeros_empty :
        (seq b : ℕ) (bs : List ℕ) → 0 < length (drop (size - 5) (b ∷ bs)) → zeros_of seq b bs ≡ []
    unfolding zeros_of
    zeros_empty seq b bs h =
        let e : k - length (cont_packet m.cid size seq (b ∷ bs)) ≡ 0 =
          omega (arith, length-take (size - 5) (b ∷ bs), length-drop (size - 5) (b ∷ bs)) in
        rw e refl

    abbrev reports : List (List ℕ) → List RecvEvent
    reports ps = map (λ p. report (pad k p)) ps

    -- The gathered payload after one more packet.
    gathered_next :
        (chunk : List ℕ) (conts : List (List ℕ)) (seq b : ℕ) (bs : List ℕ)
        → (chunk ++ cont_payloads conts) ++ (b ∷ bs) ≡ m.payload
        → (chunk ++ cont_payloads (conts ++ padded seq b bs ∷ []))
          ≡ ((chunk ++ cont_payloads conts) ++ take (size - 5) (b ∷ bs)) ++ zeros_of seq b bs
    gathered_next chunk conts seq b bs e =
        rw (cont_payloads-snoc conts (padded seq b bs), drop-padded seq b bs) (simp append_assoc)

    -- The packet behind which nothing is left.
    last_whole :
        (chunk : List ℕ) (conts : List (List ℕ)) (seq b : ℕ) (bs : List ℕ)
        → (chunk ++ cont_payloads conts) ++ (b ∷ bs) ≡ m.payload
        → drop (size - 5) (b ∷ bs) ≡ []
        → chunk ++ cont_payloads (conts ++ padded seq b bs ∷ []) ≡ m.payload ++ zeros_of seq b bs
    last_whole chunk conts seq b bs e left =
        let taken : take (size - 5) (b ∷ bs) ≡ b ∷ bs =
          sym (append-nil _) ∙ rw left at (take-append-drop (size - 5) (b ∷ bs)) in
        gathered_next chunk conts seq b bs e ∙ rw (taken, e) refl

    -- A packet behind which something is left.
    next_whole :
        (chunk : List ℕ) (conts : List (List ℕ)) (seq b : ℕ) (bs : List ℕ) (c : ℕ) (cs : List ℕ)
        → (chunk ++ cont_payloads conts) ++ (b ∷ bs) ≡ m.payload
        → drop (size - 5) (b ∷ bs) ≡ c ∷ cs
        → (chunk ++ cont_payloads (conts ++ padded seq b bs ∷ [])) ++ (c ∷ cs) ≡ m.payload
    next_whole chunk conts seq b bs c cs e left =
        let gathered : List ℕ = chunk ++ cont_payloads conts in
        let empty = zeros_empty seq b bs (rw left (omega arith)) in
        let whole = rw left at (take-append-drop (size - 5) (b ∷ bs)) in
        ap (λ l. l ++ (c ∷ cs)) (gathered_next chunk conts seq b bs e)
        ∙ rw (empty, append-nil, append_assoc, whole, e) refl

    recv_rest :
        (fuel seq : ℕ) (chunk : List ℕ) (conts : List (List ℕ)) (b : ℕ) (bs : List ℕ)
        (ps : List (List ℕ)) (events : List RecvEvent)
        → length conts ≡ seq
        → seq + fuel ≡ 128
        → (chunk ++ cont_payloads conts) ++ (b ∷ bs) ≡ m.payload
        → sequence_fragments fuel m.cid size seq (b ∷ bs) ≡ ok ps
        → hid_recv_hidapi (record { packets = header m chunk ∷ conts }) (reports ps ++ events)
          ≡ finished (ok m) events
    recv_rest zero seq chunk conts b bs ps events ec ef e h = unfold sequence_fragments in cc h
    recv_rest (suc fuel) seq chunk conts b bs ps events ec ef e h =
        let (rest, p, q, lt) = fragments_cons fuel m.cid size seq b bs (omega arith) h in
        let taken = padded_taken chunk conts seq b bs ec lt in
        elim (List-cases (drop (size - 5) (b ∷ bs))) [
          | inl left ↦
              let w =
                message_whole chunk (conts ++ padded seq b bs ∷ []) (zeros_of seq b bs)
                  (last_whole chunk conts seq b bs e left) in
              let nil = fragments_nil fuel m.cid size (seq + 1) (rw left at p) in
              let one : ps ≡ cont_packet m.cid size seq (b ∷ bs) ∷ [] = rw nil at q in
              rw one (recv_done (header m chunk ∷ conts) (padded seq b bs) events m taken w.0 w.1)
          | inr (c, cs, left) ↦
              let whole = next_whole chunk conts seq b bs c cs e left in
              let next : List (List ℕ) = conts ++ padded seq b bs ∷ [] in
              let longer : length next ≡ seq + 1 =
                omega (arith, length-append conts (padded seq b bs ∷ [])) in
              let more = message_partial chunk next c cs whole in
              rw q (
                recv_more (header m chunk ∷ conts) (padded seq b bs) (reports rest ++ events) taken
                  more
                ∙ recv_rest fuel (seq + 1) chunk next c cs rest events longer (omega arith) whole
                    (rw left at p))
        ]

    first_zeros : List ℕ
    first_zeros = replicate (k - length (header m (take (size - 7) m.payload))) 0

    -- The payload bytes of the initial packet, padded.
    first_chunk : List ℕ
    first_chunk = take (size - 7) m.payload ++ first_zeros

    first_lem : pad k (initial_fragment m size) ≡ header m first_chunk
    unfolding initial_fragment first_chunk first_zeros
    first_lem = let e : length m.payload % 65536 ≡ length m.payload = omega arith in rw e refl

    first_last :
        drop (size - 7) m.payload ≡ [] → first_chunk ++ cont_payloads [] ≡ m.payload ++ first_zeros
    unfolding first_chunk
    first_last left =
        let whole : take (size - 7) m.payload ≡ m.payload =
          sym (append-nil _) ∙ rw left at (take-append-drop (size - 7) m.payload) in
        rw (cont_payloads_nil, append-nil, whole) refl

    first_more :
        (c : ℕ) (cs : List ℕ)
        → 7 ≤ size
        → drop (size - 7) m.payload ≡ c ∷ cs
        → (first_chunk ++ cont_payloads []) ++ (c ∷ cs) ≡ m.payload
    unfolding first_chunk first_zeros
    first_more c cs h left =
        let e : k - length (header m (take (size - 7) m.payload)) ≡ 0 = omega (
          arith,
          ap length left,
          length-take (size - 7) m.payload,
          length-drop (size - 7) m.payload,
        ) in
        rw (e, cont_payloads_nil, append-nil, append-nil)
          (rw left at (take-append-drop (size - 7) m.payload))

    recv_first :
        (rest : List (List ℕ)) (events : List RecvEvent)
        → 7 ≤ size
        → sequence_fragments 128 m.cid size 0 (drop (size - 7) m.payload) ≡ ok rest
        → hid_recv_hidapi new (report (header m first_chunk) ∷ (reports rest ++ events))
          ≡ finished (ok m) events
    recv_first rest events h p =
        let taken =
          first_taken m.cid pos fits m.cmd (length m.payload / 256 % 256) (length m.payload % 256)
            first_chunk in
        elim (List-cases (drop (size - 7) m.payload)) [
          | inl left ↦
              let w = message_whole first_chunk [] first_zeros (first_last left) in
              let nil = fragments_nil 128 m.cid size 0 (rw left at p) in
              rw nil (recv_done [] (header m first_chunk) events m taken w.0 w.1)
          | inr (c, cs, left) ↦
              let whole = first_more c cs h left in
              let more = message_partial first_chunk [] c cs whole in
              recv_more [] (header m first_chunk) (reports rest ++ events) taken more
              ∙ recv_rest 128 0 first_chunk [] c cs rest events refl refl whole (rw left at p)
        ]

-- A message of at most 65535 bytes on a nonzero channel, cut into packets of any supported size and
-- then padded with zeros up to some length that is at most the packet size, is received as it was
-- sent, and the events behind its reports are left over.
pub recv-packets :
    (m : HidMessage) (size k : ℕ) (ps : List (List ℕ)) (events : List RecvEvent)
    → 0 < m.cid
    → IsU32 m.cid
    → length m.payload < 65536
    → k ≤ size
    → packets m size ≡ ok ps
    → hid_recv_hidapi new (map (λ p. report (pad k p)) ps ++ events) ≡ finished (ok m) events
recv-packets m size k ps events pos fits short ek h =
    let (rest, large, p, e) = packets_inv m size h in
    let first = first_lem m pos fits short size (size - 6) k (omega arith) ek in
    rw (e, first)
      (recv_first m pos fits short size (size - 6) k (omega arith) ek rest events (omega arith) p)
