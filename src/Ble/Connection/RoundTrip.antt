-- ===== src/Ble/Connection/RoundTrip.antt =====
-- transport/ble: what `fragments` makes of a frame, read back by `frame_recv`.
use libwebauthn.Prelude.{
  ℕ, zero, suc, ◌+◌, ◌-◌, ◌/◌, ◌%◌, ◌≤◌, ◌<◌, ◌≡◌, refl, inl, inr, ◌∙◌, ap, sym, true, false, List,
  [], ◌∷◌, ◌++◌, map, append_assoc, append-nil, length, drop, take, List-cases, length-append,
  take-append-drop, read_u16_be, ok, err, arith,
}
use libwebauthn.Ble.Frame.{
  BleFrame, ping, keepalive, msg, cancel, error, command_byte, command_of_byte-command_byte,
}
use libwebauthn.Ble.Fragments.{sequence_fragments, initial_fragment, cont_fragment, fragments}
use libwebauthn.Ble.Fragments.Sizes.{fragments_nil, fragments_cons, fragments_inv}
use libwebauthn.Ble.Parser.{
  BleFrameParser, new, update, frame, more_fragments_needed, more_fragments_expected, done,
  cont_data,
}
use libwebauthn.Ble.Parser.Steps.{
  update_more, update_done, first_more, first_done, needed, not_needed, frame_done, cont_data-snoc,
  cont_data-cons, cont_data_nil,
}
use libwebauthn.Ble.Connection.{
  RecvEvent, notification, RecvOutcome, finished, canceled, operation_failed, frame_recv,
}

cont_data-fragments :
    (fuel size seq : ℕ) (message : List ℕ) (fs : List (List ℕ))
    → sequence_fragments fuel size seq message ≡ ok fs
    → cont_data fs ≡ message
cont_data-fragments fuel size seq [] fs h = rw (fragments_nil fuel size seq h) cont_data_nil
cont_data-fragments zero size seq (b ∷ bs) fs h = unfold sequence_fragments in cc h
cont_data-fragments (suc fuel) size seq (b ∷ bs) fs h =
    let (rest, p, q) = fragments_cons fuel size seq b bs h in
    let rec = cont_data-fragments fuel size _ (drop (size - 1) (b ∷ bs)) rest p in
    rw (q, cont_data-cons, rec) (take-append-drop (size - 1) (b ∷ bs))

-- What the loop does once a frame is complete, `q` being the parser that holds it.
pub on_frame : BleFrameParser → BleFrame → List RecvEvent → RecvOutcome
on_frame q f events = elim f.cmd [
  | keepalive ↦ frame_recv new events
  | cancel ↦ finished (err canceled) events
  | error ↦ finished (err operation_failed) events
  | ping ↦ frame_recv q events
  | msg ↦ finished (ok f) events
]

pub on_frame_msg :
    (f : BleFrame) (fs : List (List ℕ)) (events : List RecvEvent)
    → f.cmd ≡ msg
    → on_frame (record { fragments = fs }) f events ≡ finished (ok f) events
unfolding on_frame
on_frame_msg f fs events h = rw h refl

pub on_frame_keepalive :
    (f : BleFrame) (fs : List (List ℕ)) (events : List RecvEvent)
    → f.cmd ≡ keepalive
    → on_frame (record { fragments = fs }) f events ≡ frame_recv new events
unfolding on_frame
on_frame_keepalive f fs events h = rw h refl

pub on_frame_ping :
    (f : BleFrame) (q : BleFrameParser) (events : List RecvEvent)
    → f.cmd ≡ ping
    → on_frame q f events ≡ frame_recv q events
unfolding on_frame
on_frame_ping f q events h = rw h refl

recv_more :
    (p q : BleFrameParser) (fragment : List ℕ) (events : List RecvEvent)
    → update p fragment ≡ (q, ok more_fragments_expected)
    → frame_recv p (notification fragment ∷ events) ≡ frame_recv q events
unfolding frame_recv
recv_more p q fragment events h = ground (arith, h)

recv_done :
    (p q : BleFrameParser) (fragment : List ℕ) (events : List RecvEvent) (f : BleFrame)
    → update p fragment ≡ (q, ok done)
    → frame q ≡ ok f
    → frame_recv p (notification fragment ∷ events) ≡ on_frame q f events
unfolding frame_recv on_frame
recv_done p q fragment events f h k = ground (arith, h)

-- The initial fragment of a frame, with a chunk of its content.
abbrev header : BleFrame → List ℕ → List ℕ
header f chunk = command_byte f.cmd ∷ length f.content / 256 % 256 ∷ length f.content % 256 ∷ chunk

abbrev notifications : List (List ℕ) → List RecvEvent
notifications = map notification

module _ (f : BleFrame) (short : length f.content < 65536) where
  abbrev total : ℕ
  total = read_u16_be (length f.content / 256 % 256) (length f.content % 256)

  total-length : total ≡ length f.content
  total-length = omega arith

  abbrev holding : List ℕ → List (List ℕ) → BleFrameParser
  holding chunk conts = record { fragments = header f chunk ∷ conts }

  rebuilt : (content : List ℕ) → content ≡ f.content → record { cmd = f.cmd; content = content } ≡ f
  rebuilt content q = λ i. record { cmd = f.cmd; content = q i }

  frame_whole :
      (chunk : List ℕ) (conts : List (List ℕ))
      → chunk ++ cont_data conts ≡ f.content
      → (more_fragments_needed (header f chunk ∷ conts) ≡ false)
        × (frame (holding chunk conts) ≡ ok f)
  frame_whole chunk conts e =
      let enough : total ≤ length (chunk ++ cont_data conts) = rw e (omega arith) in
      (
        not_needed _ _ _ chunk conts enough,
        frame_done _ _ _ chunk conts f.cmd (command_of_byte-command_byte f.cmd) enough
            ∙ ap ok (rebuilt _ e),
      )

  frame_partial :
      (chunk : List ℕ) (conts : List (List ℕ)) (c : ℕ) (cs : List ℕ)
      → (chunk ++ cont_data conts) ++ (c ∷ cs) ≡ f.content
      → more_fragments_needed (header f chunk ∷ conts) ≡ true
  frame_partial chunk conts c cs e =
      needed _ _ _ chunk conts (
        omega (arith, total-length, ap length e, length-append (chunk ++ cont_data conts) (c ∷ cs)))

  module _ (size : ℕ) where
    gathered_next :
        (chunk : List ℕ) (conts : List (List ℕ)) (seq b : ℕ) (bs : List ℕ)
        → chunk ++ cont_data (conts ++ cont_fragment size seq (b ∷ bs) ∷ [])
          ≡ (chunk ++ cont_data conts) ++ take (size - 1) (b ∷ bs)
    gathered_next chunk conts seq b bs =
        rw (cont_data-snoc conts (cont_fragment size seq (b ∷ bs)))
          (sym (append_assoc chunk (cont_data conts) (take (size - 1) (b ∷ bs))))

    -- With no byte left behind it a fragment completes the frame; else more is expected.
    last_whole :
        (chunk : List ℕ) (conts : List (List ℕ)) (seq b : ℕ) (bs : List ℕ)
        → (chunk ++ cont_data conts) ++ (b ∷ bs) ≡ f.content
        → drop (size - 1) (b ∷ bs) ≡ []
        → chunk ++ cont_data (conts ++ cont_fragment size seq (b ∷ bs) ∷ []) ≡ f.content
    last_whole chunk conts seq b bs e left =
        let taken : take (size - 1) (b ∷ bs) ≡ b ∷ bs =
          sym (append-nil _) ∙ rw left at (take-append-drop (size - 1) (b ∷ bs)) in
        gathered_next chunk conts seq b bs ∙ rw (taken, e) refl

    next_whole :
        (chunk : List ℕ) (conts : List (List ℕ)) (seq b : ℕ) (bs : List ℕ) (c : ℕ) (cs : List ℕ)
        → (chunk ++ cont_data conts) ++ (b ∷ bs) ≡ f.content
        → drop (size - 1) (b ∷ bs) ≡ c ∷ cs
        → (chunk ++ cont_data (conts ++ cont_fragment size seq (b ∷ bs) ∷ [])) ++ (c ∷ cs)
          ≡ f.content
    next_whole chunk conts seq b bs c cs e left =
        let whole = rw left at (take-append-drop (size - 1) (b ∷ bs)) in
        ap (λ l. l ++ (c ∷ cs)) (gathered_next chunk conts seq b bs) ∙ rw append_assoc (rw whole e)

    recv_rest :
        (fuel seq : ℕ) (chunk : List ℕ) (conts : List (List ℕ)) (b : ℕ) (bs : List ℕ)
        (fs : List (List ℕ)) (events : List RecvEvent)
        → (chunk ++ cont_data conts) ++ (b ∷ bs) ≡ f.content
        → sequence_fragments fuel size seq (b ∷ bs) ≡ ok fs
        → frame_recv (holding chunk conts) (notifications fs ++ events)
          ≡ on_frame (holding chunk (conts ++ fs)) f events
    recv_rest zero seq chunk conts b bs fs events e h = unfold sequence_fragments in cc h
    recv_rest (suc fuel) seq chunk conts b bs fs events e h =
        let (rest, p, q) = fragments_cons fuel size seq b bs h in
        let cont : List ℕ = cont_fragment size seq (b ∷ bs) in
        elim (List-cases (drop (size - 1) (b ∷ bs))) [
          | inl left ↦
              let w =
                frame_whole chunk (conts ++ cont ∷ []) (last_whole chunk conts seq b bs e left) in
              let one : fs ≡ cont ∷ [] = rw (fragments_nil fuel size _ (rw left at p)) at q in
              let step = update_done (header f chunk ∷ conts) _ _ (λ c. cc) w.0 in
              rw one (recv_done _ _ cont events f step w.1)
          | inr (c, cs, left) ↦
              let whole = next_whole chunk conts seq b bs c cs e left in
              let more = frame_partial chunk (conts ++ cont ∷ []) c cs whole in
              let step = update_more (header f chunk ∷ conts) _ _ (λ c. cc) more in
              let rec =
                recv_rest fuel ((seq + 1) % 256) chunk (conts ++ cont ∷ []) c cs rest events whole
                  (rw left at p) in
              rw q (recv_more _ _ cont (notifications rest ++ events) step ∙ rw append_assoc at rec)
        ]

    abbrev first_chunk : List ℕ
    first_chunk = take (size - 3) f.content

    first_lem : initial_fragment f size ≡ header f first_chunk
    unfolding initial_fragment
    first_lem = let e : length f.content % 65536 ≡ length f.content = omega arith in rw e refl

    recv_first :
        (rest : List (List ℕ)) (events : List RecvEvent)
        → sequence_fragments (length f.content) size 0 (drop (size - 3) f.content) ≡ ok rest
        → frame_recv new (notification (header f first_chunk) ∷ (notifications rest ++ events))
          ≡ on_frame (holding first_chunk rest) f events
    recv_first rest events p =
        let split = take-append-drop (size - 3) f.content in
        elim (List-cases (drop (size - 3) f.content)) [
          | inl left ↦
              let w = frame_whole first_chunk [] (rw cont_data_nil (rw left at split)) in
              let step = first_done _ _ _ first_chunk w.0 in
              rw (fragments_nil (length f.content) size 0 (rw left at p))
                (recv_done new (holding first_chunk []) (header f first_chunk) events f step w.1)
          | inr (c, cs, left) ↦
              let whole : (first_chunk ++ cont_data []) ++ (c ∷ cs) ≡ f.content =
                rw (cont_data_nil, append-nil) (rw left at split) in
              let step = first_more _ _ _ first_chunk (frame_partial first_chunk [] c cs whole) in
              recv_more new (holding first_chunk []) (header f first_chunk)
                (notifications rest ++ events) step
              ∙ recv_rest (length f.content) 0 first_chunk [] c cs rest events whole (rw left at p)
        ]

-- A frame of at most 65535 bytes, cut into fragments of any supported length, is put together
-- again: the loop goes on as its command says, with the parser holding just those fragments.
pub recv-fragments :
    (f : BleFrame) (size : ℕ) (fs : List (List ℕ)) (events : List RecvEvent)
    → length f.content < 65536
    → fragments f size ≡ ok fs
    → frame_recv new (map notification fs ++ events) ≡ on_frame (record { fragments = fs }) f events
recv-fragments f size fs events short h =
    let (rest, large, p, e) = fragments_inv f size h in
    let e' = rw (first_lem f short size) at e in rw e' (recv_first f short size rest events p)

-- The frame that a parser gives out over all the fragments of a frame.
pub frame-fragments :
    (f : BleFrame) (size : ℕ) (fs : List (List ℕ))
    → length f.content < 65536
    → fragments f size ≡ ok fs
    → frame (record { fragments = fs }) ≡ ok f
frame-fragments f size fs short h =
    let (rest, large, p, e) = fragments_inv f size h in
    let e' = rw (first_lem f short size) at e in
    let whole = cont_data-fragments (length f.content) size 0 (drop (size - 3) f.content) rest p in
    rw e'
      (frame_whole f short (take (size - 3) f.content) rest
        (rw whole (take-append-drop (size - 3) f.content))).1
