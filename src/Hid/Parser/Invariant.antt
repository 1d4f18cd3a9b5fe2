-- ===== src/Hid/Parser/Invariant.antt =====
-- transport/hid/framing.rs: what a sequence of packets must look like, and that `update` takes
-- exactly the packets that keep it so.
use libwebauthn.Prelude.{
  ℕ, suc, ◌+◌, ◌≤◌, ◌<◌, ◌≡◌, ◌↔◌, inl, inr, refl, true, false, Option, none, some, List, [], ◌∷◌,
  ◌++◌, length, length-take, Bool-cases, read_u16_be, Option-cases, is_none, ltb, if◌then◌else◌,
  get_elem?, prefix?, bytes_eq_refl, bytes_eq→eq, top_bit, all, ◌==◌, ok, error_of, arith, ap,
}
use libwebauthn.Hid.Message.{HidMessage, FramingError, packet_length_invalid, all_zero_packet}
use libwebauthn.Hid.Parser.{
  HidMessageParser, update, refusal, check_order, check_seq, option_bytes_eq, is_initialization,
  after_check, expected_bytes, message, message_of, more_packets_needed, cont_payloads,
}
use libwebauthn.Hid.Parser.Steps.{payload_len-gathered}

-- Continuation packets of one channel, numbered from `i` on, each with a byte of payload at least.
abbrev pub Continues : Option (List ℕ) → ℕ → List (List ℕ) → Type 0
Continues cid i [] = Unit
Continues cid i (p ∷ ps) =
    (6 ≤ length p)
    × (prefix? 4 p ≡ cid)
    × (get_elem? p 4 ≡ some i)
    × (i < 128)
    × Continues cid (suc i) ps

-- An initialization packet with a whole header, and continuation packets of its channel from 0 on.
abbrev pub IsWellFormed : List (List ℕ) → Type 0
IsWellFormed [] = Unit
IsWellFormed (initial ∷ conts) =
    (7 ≤ length initial)
    × (is_initialization (get_elem? initial 4) ≡ true)
    × Continues (prefix? 4 initial) 0 conts

option_bytes_eq→eq : (a b : Option (List ℕ)) → option_bytes_eq a b ≡ true → a ≡ b
unfolding option_bytes_eq
option_bytes_eq→eq none none h = refl
option_bytes_eq→eq none (some b) h = cc
option_bytes_eq→eq (some a) none h = cc
option_bytes_eq→eq (some a) (some b) h = ap some (bytes_eq→eq a b h)

option_bytes_eq_refl : (a : Option (List ℕ)) → option_bytes_eq a a ≡ true
unfolding option_bytes_eq
option_bytes_eq_refl none = refl
option_bytes_eq_refl (some a) = bytes_eq_refl a

Continues-length :
    (cid : Option (List ℕ)) (i : ℕ) (ps : List (List ℕ))
    → i ≤ 128
    → Continues cid i ps
    → length ps + i ≤ 128
Continues-length cid i [] h c = omega arith
Continues-length cid i (p ∷ ps) h c = omega (arith, Continues-length cid (suc i) ps c.3 c.4)

Continues-snoc :
    (cid : Option (List ℕ)) (i : ℕ) (ps : List (List ℕ)) (p : List ℕ)
    → Continues cid i (ps ++ p ∷ []) ↔ (Continues cid i ps × Continues cid (length ps + i) (p ∷ []))
Continues-snoc cid i [] p = let e : 0 + i ≡ i = omega arith in (λ c. (tt, rw e c), λ c. rw e at c.1)
Continues-snoc cid i (q ∷ ps) p =
    let e : length ps + suc i ≡ suc (length ps) + i = omega arith in
    let (split, join) = Continues-snoc cid (suc i) ps p in
    (
      (λ c. let s = split c.4 in ((c.0, c.1, c.2, c.3, s.0), rw e at s.1)),
      (λ c. (c.0.0, c.0.1, c.0.2, c.0.3, join (c.0.4, rw (← e) at c.1))),
    )

-- The test on the sequence number, where the count of packets is in range.
check_seq_iff :
    (n : ℕ) (seq : Option ℕ)
    → n ≤ 128
    → (check_seq (suc n) seq ≡ none) ↔ ((seq ≡ some n) × (n < 128))
unfolding check_seq
check_seq_iff n none h = (λ e. cc, λ e. cc e.0)
check_seq_iff n (some s) h = ground (arith, top_bit n)

-- The tests on a continuation packet.
check_order_iff :
    (initial : List ℕ) (conts : List (List ℕ)) (p : List ℕ)
    → length conts ≤ 128
    → (check_order (initial ∷ conts) p ≡ none) ↔ (
        (prefix? 4 p ≡ prefix? 4 initial)
        × (get_elem? p 4 ≡ some (length conts))
        × (length conts < 128))
unfolding check_order
check_order_iff initial conts p h =
    let (there, back) = check_seq_iff (length conts) (get_elem? p 4) h in
    elim (Bool-cases (option_bytes_eq (prefix? 4 p) (prefix? 4 initial))) [
      | inl same ↦
          let e = option_bytes_eq→eq (prefix? 4 p) (prefix? 4 initial) same in
          rw same (λ c. (e, (there c).0, (there c).1), λ c. back (c.1, c.2))
      | inr other ↦ rw other (
        λ c. cc,
        λ c. cc (
          ap (λ a. option_bytes_eq a (prefix? 4 initial)) c.0,
          option_bytes_eq_refl (prefix? 4 initial),
        ),
      )
    ]

-- The tests on a continuation packet in their order, its header compared by `check_order`.
refusal_cont :
    (initial : List ℕ) (conts : List (List ℕ)) (p : List ℕ)
    → refusal (initial ∷ conts) p ≡ (
        if ltb (length p) 6
        then some packet_length_invalid
        else if all (λ b. b == 0) p
        then some all_zero_packet
        else check_order (initial ∷ conts) p)
unfolding refusal
refusal_cont initial conts p = refl

refusal_cont_iff :
    (initial : List ℕ) (conts : List (List ℕ)) (p : List ℕ)
    → (refusal (initial ∷ conts) p ≡ none)
      ↔ ((6 ≤ length p) × (all (λ b. b == 0) p ≡ false) × (check_order (initial ∷ conts) p ≡ none))
refusal_cont_iff initial conts p = rw (refusal_cont initial conts p) (ground arith)

-- With well-formed packets behind it, a parser takes exactly the packets that are not all zero and
-- keep the sequence well formed.
pub refusal_iff :
    (acc : List (List ℕ)) (p : List ℕ)
    → IsWellFormed acc
    → (refusal acc p ≡ none) ↔ (IsWellFormed (acc ++ p ∷ []) × (all (λ b. b == 0) p ≡ false))
refusal_iff [] p w = unfold refusal in ground arith
refusal_iff (initial ∷ conts) p w =
    let cid : Option (List ℕ) = prefix? 4 initial in
    let short : length conts ≤ 128 =
      omega (arith, Continues-length cid 0 conts (omega arith) w.2) in
    let (there, back) = refusal_cont_iff initial conts p in
    let (order, order_back) = check_order_iff initial conts p short in
    let (split, join) = Continues-snoc cid 0 conts p in
    let e : length conts + 0 ≡ length conts = omega arith in
    (
      λ r.
          let (a, b, c) = there r in
          let (u, v, x) = order c in ((w.0, w.1, join (w.2, rw e (a, u, v, x, tt))), b),
      λ c.
          let s = split c.0.2 in let l = rw e at s.1 in back (l.0, c.1, order_back (l.1, l.2, l.3)),
    )

after_check_error :
    (parser : HidMessageParser) (p : List ℕ) (r : Option FramingError)
    → error_of (after_check parser p r).1 ≡ r
unfolding after_check
after_check_error parser p none = refl
after_check_error parser p (some e) = refl

after_check_parser :
    (parser : HidMessageParser) (p : List ℕ) (r : Option FramingError)
    → (after_check parser p r).0
      ≡ (if is_none r then record { packets = parser.packets ++ p ∷ [] } else parser)
unfolding after_check
after_check_parser parser p none = refl
after_check_parser parser p (some e) = refl

-- A packet is taken exactly when it is not all zero and leaves the packets well formed; a packet
-- that is refused leaves the parser as it was.
pub update_exact :
    (parser : HidMessageParser) (p : List ℕ)
    → IsWellFormed parser.packets
    → ((error_of (update parser p).1 ≡ none)
        ↔ (IsWellFormed (parser.packets ++ p ∷ []) × (all (λ b. b == 0) p ≡ false)))
      × ((update parser p).0 ≡ (
          if is_none (error_of (update parser p).1)
          then record { packets = parser.packets ++ p ∷ [] }
          else parser))
unfolding update
update_exact parser p w =
    let r : Option FramingError = refusal parser.packets p in
    rw (after_check_error parser p r)
      (refusal_iff parser.packets p w, after_check_parser parser p r)

-- Every parser that `update` builds up from an empty one holds well-formed packets.
pub update-IsWellFormed :
    (parser : HidMessageParser) (p : List ℕ)
    → IsWellFormed parser.packets
    → IsWellFormed (update parser p).0.packets
update-IsWellFormed parser p w =
    let (iff, state) = update_exact parser p w in
    elim (Option-cases (error_of (update parser p).1)) [
      | inl taken ↦ rw (state, taken) (iff.0 taken).0
      | inr (e, refused) ↦ rw (state, refused) w
    ]

length-message_of :
    (packets : List (List ℕ)) (m : HidMessage)
    → more_packets_needed packets ≡ false
    → message_of packets ≡ ok m
    → expected_bytes packets ≡ some (length m.payload)
unfolding message_of expected_bytes more_packets_needed
length-message_of ((a ∷ b ∷ c ∷ d ∷ e ∷ hi ∷ lo ∷ chunk) ∷ conts) m enough h = ground (
  arith,
  payload_len-gathered a b c d e hi lo chunk conts,
  length-take (read_u16_be hi lo) (chunk ++ cont_payloads conts),
)
length-message_of packets m enough h = ground arith

-- A message that a parser gives out has as many bytes of payload as the initial packet announced.
pub length-message :
    (parser : HidMessageParser) (m : HidMessage)
    → message parser ≡ ok m
    → expected_bytes parser.packets ≡ some (length m.payload)
unfolding message
length-message parser m h = elim (Bool-cases (more_packets_needed parser.packets)) [
  | inl more ↦ cc (rw more at h)
  | inr enough ↦ length-message_of parser.packets m enough (rw enough at h)
]
