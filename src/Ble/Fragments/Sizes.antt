-- ===== src/Ble/Fragments/Sizes.antt =====
-- transport/ble/framing.rs: when `BleFrame::fragments` succeeds, and what its parts are.
use libwebauthn.Prelude.{
  ℕ, zero, suc, ◌+◌, ◌-◌, ◌%◌, ◌≤◌, ◌≡◌, refl, sym, ◌∙◌, inl, inr, none, some, List, [], ◌∷◌, ltb,
  if◌then◌else◌, length, drop, length-drop, ok, error_of, ◌>>=◌, ok_of_bind, Bool-cases, arith,
}
use libwebauthn.Ble.Frame.{BleFrame, fragment_length_unsupported}
use libwebauthn.Ble.Fragments.{sequence_fragments, initial_fragment, fragments, cont_fragment}

pub fragments_step :
    (fuel size seq b : ℕ) (bs : List ℕ)
    → sequence_fragments (suc fuel) size seq (b ∷ bs) ≡ (
        sequence_fragments fuel size ((seq + 1) % 256) (drop (size - 1) (b ∷ bs)) >>= λ fs.
        ok (cont_fragment size seq (b ∷ bs) ∷ fs))
unfolding sequence_fragments
fragments_step fuel size seq b bs = refl

fragments_total :
    (fuel size seq : ℕ) (message : List ℕ)
    → 4 ≤ size
    → length message ≤ fuel
    → (fs : List (List ℕ)) × (sequence_fragments fuel size seq message ≡ ok fs)
unfolding sequence_fragments
fragments_total fuel size seq [] h l = ([], refl)
fragments_total zero size seq (b ∷ bs) h l = absurd (omega arith)
fragments_total (suc fuel) size seq (b ∷ bs) h l =
    let (fs, p) =
      fragments_total fuel size ((seq + 1) % 256) (drop (size - 1) (b ∷ bs)) h
        (omega (arith, length-drop (size - 1) (b ∷ bs))) in
    (cont_fragment size seq (b ∷ bs) ∷ fs, rw p refl)

-- `fragments` fails exactly when the fragments may have less than 4 bytes: it never runs out of
-- rounds, however long the frame is.
pub fragments_error :
    (frame : BleFrame) (size : ℕ)
    → error_of (fragments frame size)
      ≡ (if ltb size 4 then some (fragment_length_unsupported size) else none)
unfolding fragments
fragments_error frame size = elim (Bool-cases (ltb size 4)) [
  | inl small ↦ rw small refl
  | inr large ↦
      let (fs, p) =
        fragments_total (length frame.content) size 0 (drop (size - 3) frame.content) (ground arith)
          (omega (arith, length-drop (size - 3) frame.content)) in
      rw (large, p) refl
]

pub fragments_nil :
    (fuel size seq : ℕ) {fs : List (List ℕ)} → sequence_fragments fuel size seq [] ≡ ok fs → fs ≡ []
unfolding sequence_fragments
fragments_nil fuel size seq h = cc

pub fragments_cons :
    (fuel size seq b : ℕ) (bs : List ℕ) {fs : List (List ℕ)}
    → sequence_fragments (suc fuel) size seq (b ∷ bs) ≡ ok fs
    → (rest : List (List ℕ)) × (sequence_fragments fuel size
          ((seq + 1) % 256)
          (drop (size - 1) (b ∷ bs))
        ≡ ok rest)
      × (fs ≡ cont_fragment size seq (b ∷ bs) ∷ rest)
fragments_cons fuel size seq b bs h =
    let (rest, p, q) = ok_of_bind _ _ (sym (fragments_step fuel size seq b bs) ∙ h) in (rest, p, cc)

pub fragments_inv :
    (frame : BleFrame) (size : ℕ) {fs : List (List ℕ)}
    → fragments frame size ≡ ok fs
    → (rest : List (List ℕ)) × (4 ≤ size)
      × (sequence_fragments (length frame.content) size 0 (drop (size - 3) frame.content) ≡ ok rest)
      × (fs ≡ initial_fragment frame size ∷ rest)
unfolding fragments
fragments_inv frame size {fs} h = elim (Bool-cases (ltb size 4)) [
  | inl small ↦ cc (rw small at h)
  | inr large ↦
      let h' : (sequence_fragments (length frame.content) size 0 (drop (size - 3) frame.content)
            >>= λ rest. ok (initial_fragment frame size ∷ rest))
          ≡ ok fs =
        rw large at h in
      let (rest, p, q) = ok_of_bind _ _ h' in (rest, ground arith, p, cc)
]
