-- ===== src/Domains/Dafsa/Bounds.antt =====
-- ops/webauthn/psl/dafsa.rs: the lookup ends on any graph, and the flags are a nibble.
use libwebauthn.Prelude.{
  ℕ, zero, suc, ◌+◌, ◌-◌, ◌*◌, ◌≤◌, ◌<◌, ◌≡◌, ◌⊎◌, inl, inr, refl, sym, ap, ◌∙◌, true, false,
  Option, none, some, List, [], ◌∷◌, ◌==◌, ltb, not, ◌&&◌, length, get_elem?, arith, Bool-cases,
  Option-cases,
}
use native.Mathlib.Nat.{mul-le-mul_right}
use libwebauthn.Domains.Dafsa.{
  Cursor, advance, offset_size_value, get_next_offset, is_eol, is_match, is_end_char_match,
  get_return_value, match_label, Round, finish, go_on, after_label, consumed_label, lookup_round,
  lookup_loop, lookup_fuel, start, lookup, returned,
}

get_elem?-length : (xs : List ℕ) (i b : ℕ) → get_elem? xs i ≡ some b → i < length xs
get_elem?-length [] i b h = cc
get_elem?-length (x ∷ xs) zero b h = omega arith
get_elem?-length (x ∷ xs) (suc i) b h = omega (arith, get_elem?-length xs i b h)

minus_nothing : (a : ℕ) → a - 0 ≡ a
minus_nothing a = omega arith

product_step : (a b s : ℕ) → a < b → a * suc s + suc s ≤ b * suc s
product_step a b s h = omega (arith, mul-le-mul_right (suc s) h)

module _ (graph : List ℕ) where
  -- The cursor goes forward, and stands in the graph before it does.
  Forward : Cursor → Cursor → Type 0
  Forward c c' = (c.pos < length graph) × (c.pos < c'.pos)

  advance-Forward :
      (c : Cursor) (b : ℕ) (sized : Option (ℕ × ℕ)) (c' : Cursor)
      → c.pos < length graph
      → ((consumed step : ℕ) → sized ≡ some (consumed, step) → 0 < consumed)
      → advance graph c b sized ≡ some c'
      → Forward c c'
  unfolding Forward advance
  advance-Forward c b none c' lt big h = cc
  advance-Forward c b (some (consumed, step)) c' lt big h =
      let positive = big consumed step refl in ground (arith, positive)

  offset_size_value-positive :
      (pos b consumed step : ℕ)
      → offset_size_value graph pos b ≡ some (consumed, step)
      → 0 < consumed
  unfolding offset_size_value
  offset_size_value-positive pos b consumed step h = ground arith

  get_next_offset-Forward : (c c' : Cursor) → get_next_offset graph c ≡ some c' → Forward c c'
  unfolding get_next_offset
  get_next_offset-Forward c c' h = elim (Option-cases (get_elem? graph c.pos)) [
    | inl n ↦ ground arith
    | inr (b, e) ↦
        advance-Forward c b (offset_size_value graph c.pos b) c' (get_elem?-length graph c.pos b e)
          (offset_size_value-positive c.pos b) (ground arith)
  ]

  module _ (key : List ℕ) where
    match_label-between :
        (left offset key_pos offset' key_pos' : ℕ)
        → match_label graph key left offset key_pos ≡ some (offset', key_pos')
        → (key_pos ≤ key_pos') × (key_pos' ≤ key_pos + left)
    unfolding match_label
    match_label-between zero offset key_pos offset' key_pos' h = ground arith
    match_label-between (suc left) offset key_pos offset' key_pos' h =
        ground (arith, match_label-between left (offset + 1) (key_pos + 1) offset' key_pos')

    -- The rounds that are left, at most.
    measure : Cursor → ℕ → ℕ
    measure c key_pos = (length key - key_pos) * suc (length graph) + (length graph - c.pos)

    -- A round that goes on has passed a byte of the key.
    Past : ℕ → Round → Type 0
    Past key_pos (finish result) = Unit {0}
    Past key_pos (go_on c' key_pos') = (key_pos < key_pos') × (key_pos' ≤ length key)

    -- Or else it stands where it stood.
    Onward : Cursor → ℕ → Round → Type 0
    Onward c key_pos (finish result) = Unit {0}
    Onward c key_pos (go_on c' key_pos') =
        (key_pos' ≤ length key) × ((c'.pos ≡ c.pos) × (key_pos' ≡ key_pos) ⊎ (key_pos < key_pos'))

    Past-Onward :
        (c : Cursor) (old key_pos : ℕ) (r : Round) → old ≤ key_pos → Past key_pos r → Onward c old r
    unfolding Past Onward
    Past-Onward c old key_pos (finish result) le h = tt
    Past-Onward c old key_pos (go_on c' key_pos') le h = (h.1, inr (omega (arith, h.0)))

    dives :
        (key_pos : ℕ)
        → key_pos ≤ length key
        → (key_pos == length key) ≡ false
        → key_pos < length key
    dives key_pos le e = ground arith

    after_label-Past :
        (c : Cursor) (key_pos : ℕ)
        → key_pos ≤ length key
        → Past key_pos (after_label graph key c key_pos true)
    unfolding after_label Past
    after_label-Past c key_pos le = elim (Bool-cases (key_pos == length key)) [
      | inl e ↦ elim (Option-cases (get_return_value graph c.offset)) [
        | inl n ↦ rw (e, n) tt
        | inr (rv, n) ↦ rw (e, n) tt
      ]
      | inr e ↦ elim (Bool-cases (is_end_char_match graph c.offset key key_pos)) [
        | inl m ↦ rw (e, m) (omega arith, omega (arith, dives key_pos le e))
        | inr m ↦ rw (e, m) tt
      ]
    ]

    after_label-Onward :
        (c : Cursor) (key_pos : ℕ)
        → key_pos ≤ length key
        → Onward c key_pos (after_label graph key c key_pos false)
    unfolding after_label Onward
    after_label-Onward c key_pos le = elim (Bool-cases (key_pos == length key)) [
      | inl e ↦ elim (Option-cases (get_return_value graph c.offset)) [
        | inl n ↦ rw (e, n) (le, inl (refl, refl))
        | inr (rv, n) ↦ rw (e, n) tt
      ]
      | inr e ↦ elim (Bool-cases (is_end_char_match graph c.offset key key_pos)) [
        | inl m ↦ rw (e, m) (omega (arith, dives key_pos le e), inr (omega arith))
        | inr m ↦ rw (e, m) (le, inl (refl, refl))
      ]
    ]

    consumed_label-Onward :
        (c : Cursor) (key_pos : ℕ) (matched : Option (ℕ × ℕ))
        → ((offset' key_pos' : ℕ)
            → matched ≡ some (offset', key_pos')
            → (key_pos ≤ key_pos') × (key_pos' ≤ length key))
        → Onward c key_pos (consumed_label graph key c.pos matched)
    unfolding consumed_label Onward
    consumed_label-Onward c key_pos none between = tt
    consumed_label-Onward c key_pos (some (offset', key_pos')) between =
        let (le, le') = between offset' key_pos' refl in
        Past-Onward c key_pos key_pos'
          (after_label graph key (record { pos = c.pos; offset = offset' }) key_pos' true) le
          (after_label-Past (record { pos = c.pos; offset = offset' }) key_pos' le')

    rest_of_label :
        (offset key_pos offset' key_pos' : ℕ)
        → key_pos < length key
        → match_label graph key (length key - (key_pos + 1)) offset (key_pos + 1)
          ≡ some (offset', key_pos')
        → (key_pos ≤ key_pos') × (key_pos' ≤ length key)
    rest_of_label offset key_pos offset' key_pos' lt h =
        let between =
          match_label-between (length key - (key_pos + 1)) offset (key_pos + 1) offset' key_pos'
            h in
        (omega (arith, between.0), omega (arith, between.1))

    lookup_round-Onward :
        (c : Cursor) (key_pos : ℕ)
        → key_pos ≤ length key
        → Onward c key_pos (lookup_round graph key c key_pos)
    unfolding Onward lookup_round
    lookup_round-Onward c key_pos le =
        elim (Bool-cases (ltb key_pos (length key) && not (is_eol graph c.offset))) [
          | inl e ↦ elim (Bool-cases (is_match graph c.offset key key_pos)) [
            | inl m ↦
                rw (e, m)
                  (consumed_label-Onward c key_pos
                    (match_label graph key (length key - (key_pos + 1)) (c.offset + 1)
                      (key_pos + 1))
                    (λ o k. rest_of_label (c.offset + 1) key_pos o k (ground arith)))
            | inr m ↦ rw (e, m) (le, inl (refl, refl))
          ]
          | inr e ↦ rw e (after_label-Onward c key_pos le)
        ]

    measure-falls :
        (c c' c'' : Cursor) (key_pos key_pos' : ℕ)
        → Forward c c'
        → Onward c' key_pos (go_on c'' key_pos')
        → measure c'' key_pos' < measure c key_pos
    unfolding measure Onward Forward
    measure-falls c c' c'' key_pos key_pos' (inside, forward) (le, inl (p, k)) =
        rw (p, k) (omega arith)
    measure-falls c c' c'' key_pos key_pos' (inside, forward) (le, inr k) = omega (
      arith,
      product_step (length key - key_pos') (length key - key_pos) (length graph) (omega arith),
    )

    Ends : Cursor → ℕ → Type 0
    Ends c key_pos =
        (result : Option ℕ) × ((more : ℕ)
          → measure c key_pos < more
          → lookup_loop graph key more c key_pos ≡ some result)

    Ends-step :
        (c : Cursor) (key_pos : ℕ) (result : Option ℕ)
        → ((more : ℕ)
            → measure c key_pos ≤ more
            → lookup_loop graph key (suc more) c key_pos ≡ some result)
        → Ends c key_pos
    unfolding Ends
    Ends-step c key_pos result step = (result, λ more lt. one_round more lt)
      where
        one_round :
            (more : ℕ)
            → measure c key_pos < more
            → lookup_loop graph key more c key_pos ≡ some result
        one_round zero lt = absurd (omega arith)
        one_round (suc more) lt = step more (omega arith)

    measure-start : measure start 0 < lookup_fuel graph key
    unfolding measure
    measure-start = rw (minus_nothing (length key), minus_nothing (length graph)) (omega arith)

    after_round :
        (c c' : Cursor) (key_pos : ℕ) (r : Round)
        → get_next_offset graph c ≡ some c'
        → lookup_round graph key c' key_pos ≡ r
        → Onward c' key_pos r
        → ((c'' : Cursor) (key_pos' : ℕ)
            → measure c'' key_pos' < measure c key_pos
            → key_pos' ≤ length key
            → Ends c'' key_pos')
        → Ends c key_pos
    unfolding lookup_loop Ends Onward
    after_round c c' key_pos (finish result) n r on rest =
        Ends-step c key_pos result (λ more lt. rw (lookup_loop, n, r) refl)
    after_round c c' key_pos (go_on c'' key_pos') n r on rest =
        let falls = measure-falls c c' c'' key_pos key_pos' (get_next_offset-Forward c c' n) on in
        let (result, ends) = rest c'' key_pos' falls on.0 in
        Ends-step c key_pos result
          (λ more lt. rw (lookup_loop, n, r) (ends more (omega (arith, falls))))

    loop-Ends :
        (fuel : ℕ) (c : Cursor) (key_pos : ℕ)
        → measure c key_pos < fuel
        → key_pos ≤ length key
        → Ends c key_pos
    unfolding lookup_loop Ends
    loop-Ends zero c key_pos lt le = absurd (omega arith)
    loop-Ends (suc fuel) c key_pos lt le = elim (Option-cases (get_next_offset graph c)) [
      | inl n ↦ Ends-step c key_pos none (λ more lt. rw (lookup_loop, n) refl)
      | inr (c', n) ↦
          after_round c c' key_pos (lookup_round graph key c' key_pos) n refl
            (lookup_round-Onward c' key_pos le)
            (λ c'' key_pos' falls le'. loop-Ends fuel c'' key_pos' (omega (arith, falls)) le')
    ]

    -- On any graph and any key the lookup ends: with `lookup_fuel` rounds or more the loop returns,
    -- always with the same answer.
    pub lookup_loop-ends :
        (fuel : ℕ)
        → lookup_fuel graph key ≤ fuel
        → lookup_loop graph key fuel start 0 ≡ some (lookup graph key)
    unfolding lookup Ends measure
    lookup_loop-ends fuel le =
        let enough = measure-start in
        let (result, ends) = loop-Ends (lookup_fuel graph key) start 0 enough (omega arith) in
        ends fuel (omega (arith, enough))
        ∙ sym (ap some (ap returned (ends (lookup_fuel graph key) enough)))
