-- ===== src/Ble/Parser/Steps.antt =====
-- transport/ble/framing.rs: `update` and `frame` on fragments of the form that `fragments` gives.
use libwebauthn.Prelude.{
  ℕ, ◌≤◌, ◌<◌, ◌≡◌, refl, ◌∙◌, ◌≢◌, true, false, some, List, [], ◌∷◌, ◌++◌, append_assoc,
  append-nil, length, length-append, length-drop, drop, read_u16_be, ok, Bool-cases, inl, inr,
  arith,
}
use libwebauthn.Ble.Frame.{BleFrame, BleCommand, command_of_byte}
use libwebauthn.Ble.Parser.{
  BleFrameParser, more_fragments_expected, done, update, frame, frame_of, assemble, data_len,
  cont_len, cont_data, more_fragments_needed, expected_bytes,
}

pub cont_len-length : (fs : List (List ℕ)) → cont_len fs ≡ length (cont_data fs)
unfolding cont_len cont_data
cont_len-length [] = refl
cont_len-length (f ∷ fs) =
    omega (arith, cont_len-length fs, length-append (drop 1 f) (cont_data fs), length-drop 1 f)

pub cont_data-append : (fs gs : List (List ℕ)) → cont_data (fs ++ gs) ≡ cont_data fs ++ cont_data gs
unfolding cont_data
cont_data-append [] gs = refl
cont_data-append (f ∷ fs) gs = rw (cont_data-append fs gs, append_assoc)

pub cont_data_nil : cont_data [] ≡ []
unfolding cont_data
cont_data_nil = refl

pub cont_data-cons :
    (f : List ℕ) (fs : List (List ℕ)) → cont_data (f ∷ fs) ≡ drop 1 f ++ cont_data fs
unfolding cont_data
cont_data-cons f fs = refl

pub cont_data-snoc :
    (fs : List (List ℕ)) (f : List ℕ) → cont_data (fs ++ f ∷ []) ≡ cont_data fs ++ drop 1 f
cont_data-snoc fs f = cont_data-append fs (f ∷ []) ∙ unfold cont_data in rw append-nil refl

module _ (fragments : List (List ℕ)) (b : ℕ) (bs : List ℕ) where
  pub update_more :
      fragments ≢ []
      → more_fragments_needed (fragments ++ (b ∷ bs) ∷ []) ≡ true
      → update (record { fragments = fragments }) (b ∷ bs)
        ≡ (record { fragments = fragments ++ (b ∷ bs) ∷ [] }, ok more_fragments_expected)
  unfolding update
  update_more h k = ground arith

  pub update_done :
      fragments ≢ []
      → more_fragments_needed (fragments ++ (b ∷ bs) ∷ []) ≡ false
      → update (record { fragments = fragments }) (b ∷ bs)
        ≡ (record { fragments = fragments ++ (b ∷ bs) ∷ [] }, ok done)
  unfolding update
  update_done h k = ground arith

-- An initial fragment with its header spelled out: command and length.
module _ (c hi lo : ℕ) (chunk : List ℕ) where
  abbrev pub initial : List ℕ
  initial = c ∷ hi ∷ lo ∷ chunk

  pub first_more :
      more_fragments_needed (initial ∷ []) ≡ true
      → update (record { fragments = [] }) initial
        ≡ (record { fragments = initial ∷ [] }, ok more_fragments_expected)
  unfolding update
  first_more h = ground arith

  pub first_done :
      more_fragments_needed (initial ∷ []) ≡ false
      → update (record { fragments = [] }) initial ≡ (record { fragments = initial ∷ [] }, ok done)
  unfolding update
  first_done h = ground arith

  module _ (conts : List (List ℕ)) where
    abbrev pub gathered : List ℕ
    gathered = chunk ++ cont_data conts

    data_len-gathered : data_len (initial ∷ conts) ≡ length gathered
    unfolding data_len
    data_len-gathered = omega (arith, cont_len-length conts, length-append chunk (cont_data conts))

    pub needed :
        length gathered < read_u16_be hi lo → more_fragments_needed (initial ∷ conts) ≡ true
    unfolding more_fragments_needed expected_bytes
    needed h = ground (arith, data_len-gathered)

    pub not_needed :
        read_u16_be hi lo ≤ length gathered → more_fragments_needed (initial ∷ conts) ≡ false
    unfolding more_fragments_needed expected_bytes
    not_needed h = ground (arith, data_len-gathered)

    pub frame_done :
        (cmd : BleCommand)
        → command_of_byte c ≡ some cmd
        → read_u16_be hi lo ≤ length gathered
        → frame (record { fragments = initial ∷ conts })
          ≡ ok (record { cmd = cmd; content = gathered })
    unfolding frame
    frame_done cmd h k = rw (not_needed k) (unfold frame_of in rw (h, assemble) refl)

cont_len-snoc : (fs : List (List ℕ)) (g : List ℕ) → cont_len fs ≤ cont_len (fs ++ g ∷ [])
unfolding cont_len
cont_len-snoc [] g = omega arith
cont_len-snoc (f ∷ fs) g = omega (arith, cont_len-snoc fs g)

-- What is complete stays complete.
needed-snoc :
    (fs : List (List ℕ)) (g : List ℕ)
    → more_fragments_needed fs ≡ false
    → more_fragments_needed (fs ++ g ∷ []) ≡ false
unfolding more_fragments_needed expected_bytes data_len
needed-snoc [] g h = cc
needed-snoc (initial ∷ conts) g h = ground (arith, cont_len-snoc conts g)

-- A frame that is given out is complete, and has its command from the initial fragment.
frame_inv :
    (q : BleFrameParser) (f : BleFrame)
    → frame q ≡ ok f
    → (more_fragments_needed q.fragments ≡ false) × (frame_of q.fragments ≡ ok f)
unfolding frame
frame_inv q f h = elim (Bool-cases (more_fragments_needed q.fragments)) [
  | inl more ↦ cc (rw more at h)
  | inr enough ↦ (enough, rw enough at h)
]

frame_of-snoc :
    (fs : List (List ℕ)) (f : BleFrame) (g : List ℕ)
    → frame_of fs ≡ ok f
    → (f' : BleFrame) × (f'.cmd ≡ f.cmd) × (frame_of (fs ++ g ∷ []) ≡ ok f')
unfolding frame_of
frame_of-snoc [] f g h = cc
frame_of-snoc ([] ∷ conts) f g h = cc
frame_of-snoc ((c ∷ rest) ∷ conts) f g h = (
  record { cmd = f.cmd; content = drop 3 (c ∷ rest) ++ cont_data (conts ++ g ∷ []) },
  refl,
  ground arith,
)

nonempty : (q : BleFrameParser) → more_fragments_needed q.fragments ≡ false → q.fragments ≢ []
unfolding more_fragments_needed
nonempty q h e = cc (rw e at h)

-- A complete frame takes every further fragment, and keeps its command.
pub frame-snoc :
    (q : BleFrameParser) (f : BleFrame) (g : List ℕ)
    → frame q ≡ ok f
    → (f' : BleFrame) × (f'.cmd ≡ f.cmd)
      × (frame (record { fragments = q.fragments ++ g ∷ [] }) ≡ ok f')
frame-snoc q f g h =
    let (enough, e) = frame_inv q f h in
    let (f', same, e') = frame_of-snoc q.fragments f g e in
    (f', same, unfold frame in rw (needed-snoc q.fragments g enough) e')

pub update_done_any :
    (q : BleFrameParser) (f : BleFrame) (g : List ℕ)
    → frame q ≡ ok f
    → 0 < length g
    → update q g ≡ (record { fragments = q.fragments ++ g ∷ [] }, ok done)
unfolding update
update_done_any q f g h k =
    let (enough, e) = frame_inv q f h in
    ground (arith, needed-snoc q.fragments g enough, nonempty q enough)
