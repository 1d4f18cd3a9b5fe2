-- ===== src/Domains/Related/Refines.antt =====
-- ops/webauthn/related_origins/mod.rs: the loop with its set of labels does what the standard says:
-- only the first labels count.
use libwebauthn.Prelude.{
  ℕ, zero, suc, ◌≤◌, ◌≡◌, ◌↔◌, ◌⊎◌, inl, inr, refl, sym, ap, subst, ◌∙◌, Bool, true, false, not,
  ◌&&◌, Option, none, some, List, [], ◌∷◌, ◌++◌, append_assoc, append-nil, leb, length, take,
  Result, ok, arith, length-append, take_append, bytes_eq_refl, Bool-cases,
}
use libwebauthn.Domains.Related.{
  Origin, Url, RelatedError, same_origin, has_label, insert, remember, match_loop, candidates,
  validate_related_origins,
}

-- The different labels, in the order in which they first occur, behind those of `seen`.
distinct_after : List (List ℕ) → List (Option (Url × List ℕ)) → List (List ℕ)
distinct_after seen [] = seen
distinct_after seen (none ∷ items) = distinct_after seen items
distinct_after seen (some (url, label) ∷ items) = distinct_after (insert label seen) items

-- The labels that count: the first `cap` different ones.
unfoldable pub counted_labels : ℕ → List (Option (Url × List ℕ)) → List (List ℕ)
unfolding distinct_after
counted_labels cap items = take cap (distinct_after [] items)

-- Some listed origin whose label counts is the caller's.
abbrev pub Listed : Origin → List (List ℕ) → List (Option (Url × List ℕ)) → Type 0
Listed caller labels [] = ⊥
Listed caller labels (none ∷ items) = Listed caller labels items
Listed caller labels (some (url, label) ∷ items) =
    ((has_label label labels ≡ true) × (same_origin caller url ≡ true)) ⊎ Listed caller labels items

distinct_after-grows :
    (seen : List (List ℕ)) (items : List (Option (Url × List ℕ)))
    → (more : List (List ℕ)) × (distinct_after seen items ≡ seen ++ more)
unfolding distinct_after
distinct_after-grows seen [] = ([], sym (append-nil seen))
distinct_after-grows seen (none ∷ items) = distinct_after-grows seen items
distinct_after-grows seen (some (url, label) ∷ items) = elim (Bool-cases (has_label label seen)) [
  | inl e ↦ rw e (distinct_after-grows seen items)
  | inr e ↦
      let (more, p) = distinct_after-grows (seen ++ label ∷ []) items in
      (label ∷ more, rw e (p ∙ append_assoc seen (label ∷ []) more))
]

has_label_append :
    (label : List ℕ) (xs ys : List (List ℕ))
    → has_label label xs ≡ true
    → has_label label (xs ++ ys) ≡ true
has_label_append label [] ys h = cc
has_label_append label (x ∷ xs) ys h = ground (arith, has_label_append label xs ys)

has_label_last : (label : List ℕ) (xs : List (List ℕ)) → has_label label (xs ++ label ∷ []) ≡ true
has_label_last label [] = ground (arith, bytes_eq_refl label)
has_label_last label (x ∷ xs) = ground (arith, has_label_last label xs)

has-insert : (label : List ℕ) (seen : List (List ℕ)) → has_label label (insert label seen) ≡ true
has-insert label seen = elim (Bool-cases (has_label label seen)) [
  | inl e ↦ rw (e, e) refl
  | inr e ↦ rw e (has_label_last label seen)
]

take_whole :
    (n : ℕ) (xs ys : List (List ℕ))
    → length xs ≤ n
    → (more : List (List ℕ)) × (take n (xs ++ ys) ≡ xs ++ more)
take_whole n [] ys h = (take n ys, refl)
take_whole zero (x ∷ xs) ys h = absurd (omega arith)
take_whole (suc n) (x ∷ xs) ys h =
    let (more, p) = take_whole n xs ys (omega arith) in (more, ap (λ l. x ∷ l) p)

-- A full set keeps what counts as it is.
full :
    (n : ℕ) (seen ys : List (List ℕ))
    → length seen ≤ n
    → n ≤ length seen
    → take n (seen ++ ys) ≡ seen
full n seen ys h k =
    subst (λ m. take m (seen ++ ys) ≡ seen) (same (length seen) n h k) (take_append seen ys)
  where
    same : (a b : ℕ) → a ≤ b → b ≤ a → a ≡ b
    same a b h k = omega arith

counted_full :
    (cap : ℕ) (seen : List (List ℕ)) (items : List (Option (Url × List ℕ)))
    → length seen ≤ cap
    → cap ≤ length seen
    → take cap (distinct_after seen items) ≡ seen
counted_full cap seen items h k =
    let (more, p) = distinct_after-grows seen items in rw p (full cap seen more h k)

counted_insert_full :
    (cap : ℕ) (label : List ℕ) (seen : List (List ℕ)) (items : List (Option (Url × List ℕ)))
    → length seen ≤ cap
    → cap ≤ length seen
    → take cap (distinct_after (insert label seen) items) ≡ seen
counted_insert_full cap label seen items h k = elim (Bool-cases (has_label label seen)) [
  | inl e ↦ rw e (counted_full cap seen items h k)
  | inr e ↦
      let (more, p) = distinct_after-grows (seen ++ label ∷ []) items in
      rw (e, p, append_assoc seen (label ∷ []) more) (full cap seen (label ∷ more) h k)
]

counted_has :
    (cap : ℕ) (label : List ℕ) (seen : List (List ℕ)) (items : List (Option (Url × List ℕ)))
    → length seen ≤ cap
    → has_label label seen ≡ true
    → has_label label (take cap (distinct_after seen items)) ≡ true
counted_has cap label seen items h e =
    let (more, p) = distinct_after-grows seen items in
    let (more', q) = take_whole cap seen more h in rw (p, q) (has_label_append label seen more' e)

-- An origin whose label counts: the set then holds the label, within the limit.
module _ (cap : ℕ) (label : List ℕ) (seen : List (List ℕ)) where
  remember-insert :
      (leb cap (length seen) && not (has_label label seen)) ≡ false
      → remember cap label seen ≡ insert label seen
  remember-insert s = ground arith

  length-insert :
      (leb cap (length seen) && not (has_label label seen)) ≡ false
      → length seen ≤ cap
      → length (insert label seen) ≤ cap
  length-insert s h = elim (Bool-cases (has_label label seen)) [
    | inl e ↦ rw e h
    | inr e ↦ rw e (ground (arith, length-append seen (label ∷ [])))
  ]

  no_room :
      (leb cap (length seen) && not (has_label label seen)) ≡ true
      → (cap ≤ length seen) × (has_label label seen ≡ false)
  no_room s = (ground arith, ground arith)

module _ (caller : Origin) (cap : ℕ) where
  only_later :
      {A : Type 0} (labels : List (List ℕ)) (url : Url) (label : List ℕ)
      (items : List (Option (Url × List ℕ)))
      → (has_label label labels ≡ false) ⊎ (same_origin caller url ≡ false)
      → (A ↔ Listed caller labels items)
      → A ↔ Listed caller labels (some (url, label) ∷ items)
  only_later labels url label items none_here later = (
    λ a. inr (later.0 a),
    λ l. elim l [ inl (h, o) ↦ absurd (never none_here h o) | inr rest ↦ later.1 rest ],
  )
    where
      never : {a b : Bool} → (a ≡ false) ⊎ (b ≡ false) → a ≡ true → b ≡ true → ⊥
      never (inl e) h o = cc
      never (inr e) h o = cc

  same_iff :
      (items : List (Option (Url × List ℕ))) (labels labels' : List (List ℕ))
      {r r' : Result RelatedError (Unit {0})}
      → r' ≡ r
      → labels ≡ labels'
      → (r ≡ ok tt ↔ Listed caller labels items)
      → r' ≡ ok tt ↔ Listed caller labels' items
  same_iff items labels labels' {r} e l h =
      subst (λ x. x ≡ ok tt ↔ Listed caller labels' items) (sym e)
        (subst (λ x. r ≡ ok tt ↔ Listed caller x items) l h)

  -- The three ways of a round.
  module _ (url : Url) (label : List ℕ) (seen : List (List ℕ))
      (items : List (Option (Url × List ℕ))) where
    skipped :
        (leb cap (length seen) && not (has_label label seen)) ≡ true
        → match_loop caller cap seen (some (url, label) ∷ items) ≡ match_loop caller cap seen items
    unfolding match_loop
    skipped s = rw (match_loop, s) refl

    matched :
        (leb cap (length seen) && not (has_label label seen)) ≡ false
        → same_origin caller url ≡ true
        → match_loop caller cap seen (some (url, label) ∷ items) ≡ ok tt
    unfolding match_loop
    matched s o = rw (match_loop, s, o) refl

    passed :
        (leb cap (length seen) && not (has_label label seen)) ≡ false
        → same_origin caller url ≡ false
        → match_loop caller cap seen (some (url, label) ∷ items)
          ≡ match_loop caller cap (insert label seen) items
    unfolding match_loop
    passed s o = rw (match_loop, s, o, remember-insert cap label seen s) refl

  loop-Listed :
      (seen : List (List ℕ)) (items : List (Option (Url × List ℕ)))
      → length seen ≤ cap
      → match_loop caller cap seen items ≡ ok tt
        ↔ Listed caller (take cap (distinct_after seen items)) items
  unfolding match_loop distinct_after
  loop-Listed seen [] h = (λ e. cc, λ e. absurd e)
  loop-Listed seen (none ∷ items) h = loop-Listed seen items h
  loop-Listed seen (some (url, label) ∷ items) h =
      let counted = take cap (distinct_after (insert label seen) items) in
      elim (Bool-cases (leb cap (length seen) && not (has_label label seen))) [
        | inl s ↦
            let (room, absent) = no_room cap label seen s in
            let same = counted_insert_full cap label seen items h room in
            only_later counted url label items
              (inl (subst (λ l. has_label label l ≡ false) (sym same) absent))
              (same_iff items (take cap (distinct_after seen items)) counted
                (skipped url label seen items s) (counted_full cap seen items h room ∙ sym same)
                (loop-Listed seen items h))
        | inr s ↦
            let fits = length-insert cap label seen s h in
            elim (Bool-cases (same_origin caller url)) [
              | inl o ↦ (
                λ e. inl (
                  counted_has cap label (insert label seen) items fits (has-insert label seen),
                  o,
                ),
                λ e. matched url label seen items s o,
              )
              | inr o ↦ only_later counted url label items (inr o) (
                  same_iff items counted counted (passed url label seen items s o) refl
                    (loop-Listed (insert label seen) items fits))
            ]
      ]

module _ (parse : List ℕ → Option Url) (registrable_of : List ℕ → Option (List ℕ)) where
  -- The loop over the listed origins implements the rule of the standard: the caller is accepted
  -- exactly if it is the same origin as a listed one whose registrable-domain label is among the
  -- first `cap` different labels of the list. Listed origins without such a label do not count.
  pub validate_related_origins-Listed :
      (caller : Origin) (origins : List (List ℕ)) (cap : ℕ)
      → validate_related_origins parse registrable_of caller origins cap ≡ ok tt
        ↔ Listed caller
            (counted_labels cap (candidates parse registrable_of origins))
            (candidates parse registrable_of origins)
  unfolding validate_related_origins counted_labels
  validate_related_origins-Listed caller origins cap =
      loop-Listed caller cap [] (candidates parse registrable_of origins) (omega arith)
