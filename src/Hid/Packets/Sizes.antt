-- ===== src/Hid/Packets/Sizes.antt =====
-- transport/hid/framing.rs: when `HidMessage::packets` succeeds, and the sizes of what it returns.
use libwebauthn.Prelude.{
  ℕ, zero, suc, ◌+◌, ◌-◌, ◌*◌, ◌%◌, ◌≤◌, ◌<◌, ◌≡◌, refl, sym, ◌∙◌, inl, inr, List, [], ◌∷◌, ltb,
  length, drop, some, none, error_of, length-drop, ok, err, ◌>>=◌, ok_of_bind, arith, Bool-cases,
  le→ltb, if◌then◌else◌,
}
use libwebauthn.Hid.Message.{HidMessage, payload_too_large, packet_size_unsupported}
use libwebauthn.Hid.Packets.{sequence_fragments, initial_fragment, packets, cont_packet}

-- A round of the loop that leaves the counter in range.
pub fragments_step :
    (fuel cid size seq b : ℕ) (bs : List ℕ)
    → seq < 127
    → sequence_fragments (suc fuel) cid size seq (b ∷ bs) ≡ (
        sequence_fragments fuel cid size (seq + 1) (drop (size - 5) (b ∷ bs)) >>= λ ps.
        ok (cont_packet cid size seq (b ∷ bs) ∷ ps))
unfolding sequence_fragments
fragments_step fuel cid size seq b bs h =
    let e : (seq + 1) % 256 ≡ seq + 1 = omega arith in
    rw e (rw (le→ltb 127 (seq + 1) (omega arith)) refl)

-- The round in which the counter passes 0x7F.
pub fragments_last :
    (fuel cid size b : ℕ) (bs : List ℕ)
    → sequence_fragments (suc fuel) cid size 127 (b ∷ bs) ≡ err (payload_too_large size)
unfolding sequence_fragments
fragments_last fuel cid size b bs = refl

-- Inversion of a round that succeeds.
pub fragments_cons :
    (fuel cid size seq b : ℕ) (bs : List ℕ) {ps : List (List ℕ)}
    → seq + fuel ≡ 127
    → sequence_fragments (suc fuel) cid size seq (b ∷ bs) ≡ ok ps
    → (rest : List (List ℕ)) × (sequence_fragments fuel cid size
          (seq + 1)
          (drop (size - 5) (b ∷ bs))
        ≡ ok rest)
      × (ps ≡ cont_packet cid size seq (b ∷ bs) ∷ rest)
      × (seq < 127)
fragments_cons zero cid size seq b bs e h =
    let e' : seq ≡ 127 = omega arith in absurd (cc (fragments_last zero cid size b bs, rw e' at h))
fragments_cons (suc fuel) cid size seq b bs e h =
    let s = fragments_step (suc fuel) cid size seq b bs (omega arith) in
    let (rest, p, q) = ok_of_bind _ _ (sym s ∙ h) in (rest, p, cc, omega arith)

pub fragments_nil :
    (fuel cid size seq : ℕ) {ps : List (List ℕ)}
    → sequence_fragments fuel cid size seq [] ≡ ok ps
    → ps ≡ []
unfolding sequence_fragments
fragments_nil fuel cid size seq h = cc

-- While the payload fits in the rounds left but one, the loop succeeds.
fragments_fit :
    (fuel cid size seq : ℕ) (payload : List ℕ)
    → 8 ≤ size
    → seq + fuel ≡ 127
    → length payload ≤ fuel * (size - 5)
    → (ps : List (List ℕ)) × (sequence_fragments (suc fuel) cid size seq payload ≡ ok ps)
fragments_fit fuel cid size seq [] h e l = ([], unfold sequence_fragments in refl)
fragments_fit zero cid size seq (b ∷ bs) h e l = absurd (omega arith)
fragments_fit (suc fuel) cid size seq (b ∷ bs) h e l =
    let (ps, p) =
      fragments_fit fuel cid size (seq + 1) (drop (size - 5) (b ∷ bs)) h (omega arith)
        (omega (arith, length-drop (size - 5) (b ∷ bs))) in
    (
      cont_packet cid size seq (b ∷ bs) ∷ ps,
      fragments_step (suc fuel) cid size seq b bs (omega arith) ∙ rw p refl,
    )

fragments_overflow :
    (fuel cid size seq : ℕ) (payload : List ℕ)
    → seq + fuel ≡ 127
    → fuel * (size - 5) < length payload
    → sequence_fragments (suc fuel) cid size seq payload ≡ err (payload_too_large size)
fragments_overflow fuel cid size seq [] e l = absurd (omega arith)
fragments_overflow zero cid size seq (b ∷ bs) e l =
    let e' : seq ≡ 127 = omega arith in rw e' (fragments_last zero cid size b bs)
fragments_overflow (suc fuel) cid size seq (b ∷ bs) e l =
    fragments_step (suc fuel) cid size seq b bs (omega arith)
    ∙ rw
        (fragments_overflow fuel cid size (seq + 1) (drop (size - 5) (b ∷ bs)) (omega arith)
          (omega (arith, length-drop (size - 5) (b ∷ bs))))
        refl

-- The most payload bytes that fit: one initial and 127 sequence fragments.
abbrev pub max_payload : ℕ → ℕ
max_payload size = (size - 7) + 127 * (size - 5)

-- `packets` fails exactly when the packet size is below 8, or the payload does not fit the initial
-- packet and 127 more, and each failure has its own error.
pub packets_error :
    (m : HidMessage) (size : ℕ)
    → error_of (packets m size) ≡ (
        if ltb size 8
        then some (packet_size_unsupported size)
        else if ltb (max_payload size) (length m.payload)
        then some (payload_too_large size)
        else none)
unfolding packets
packets_error m size = elim (Bool-cases (ltb size 8)) [
  | inl small ↦ rw small refl
  | inr large ↦ rw large (elim (Bool-cases (ltb (max_payload size) (length m.payload))) [
    | inl long ↦
        rw
          (
            long,
            fragments_overflow 127 m.cid size 0 (drop (size - 7) m.payload) (omega arith)
                (ground (arith, length-drop (size - 7) m.payload)),
          )
          refl
    | inr short ↦
        rw
          (
            short,
            (fragments_fit 127 m.cid size 0 (drop (size - 7) m.payload) (ground arith) (omega arith)
                (ground (arith, length-drop (size - 7) m.payload))).1,
          )
          refl
  ])
]

-- Inversion of a success.
pub packets_inv :
    (m : HidMessage) (size : ℕ) {ps : List (List ℕ)}
    → packets m size ≡ ok ps
    → (rest : List (List ℕ)) × (8 ≤ size)
      × (sequence_fragments 128 m.cid size 0 (drop (size - 7) m.payload) ≡ ok rest)
      × (ps ≡ initial_fragment m size ∷ rest)
unfolding packets
packets_inv m size {ps} h = elim (Bool-cases (ltb size 8)) [
  | inl small ↦ cc (rw small at h)
  | inr large ↦
      let h' : (sequence_fragments 128 m.cid size 0 (drop (size - 7) m.payload) >>= λ rest.
      ok (initial_fragment m size ∷ rest))
          ≡ ok ps =
        rw large at h in
      let (rest, p, q) = ok_of_bind _ _ h' in (rest, ground arith, p, cc)
]
