-- ===== src/Hints/Merged.antt =====
-- ops/webauthn/hints.rs: which transports the merged list has, and that it has none twice.
use libwebauthn.Prelude.{
  ℕ, zero, suc, ◌≡◌, refl, sym, ap, subst, inl, inr, Bool, true, false, not, ◌&&◌, ◌||◌, Option,
  List, [], ◌∷◌, ◌++◌, String, eq_iff, ==_iff, arith, Bool-cases,
}
use libwebauthn.Hints.{
  Transport, usb, nfc, ble, smart_card, internal, hybrid, other, tag, transport_eq, Hint,
  Attachment, contains, push_one, push_absent, hinted, push_hints, attached, is_other,
  push_descriptors, without_internal, drops_internal, merge_transport_preference,
}

of_tag : ℕ → String → Transport
of_tag zero name = usb
of_tag (suc zero) name = nfc
of_tag (suc (suc zero)) name = ble
of_tag (suc (suc (suc zero))) name = smart_card
of_tag (suc (suc (suc (suc zero)))) name = internal
of_tag (suc (suc (suc (suc (suc zero))))) name = hybrid
of_tag (suc (suc (suc (suc (suc (suc n)))))) name = other name

of_tag-tag : (t : Transport) → of_tag (tag t).0 (tag t).1 ≡ t
unfolding of_tag
of_tag-tag usb = refl
of_tag-tag nfc = refl
of_tag-tag ble = refl
of_tag-tag smart_card = refl
of_tag-tag internal = refl
of_tag-tag hybrid = refl
of_tag-tag (other name) = refl

same : (a b : Transport) → transport_eq a b ≡ true → a ≡ b
same a b h = ground (
  arith,
  sym (of_tag-tag a),
  of_tag-tag b,
  ==_iff (tag a).0 (tag b).0,
  eq_iff (tag a).1 (tag b).1,
)

contains_append :
    (t : Transport) (xs ys : List Transport)
    → contains t (xs ++ ys) ≡ (contains t xs || contains t ys)
contains_append t [] ys = refl
contains_append t (x ∷ xs) ys = ground (arith, contains_append t xs ys)

contains-push_one :
    (t x : Transport) (out : List Transport)
    → contains t (push_one out x) ≡ (contains t out || transport_eq t x)
contains-push_one t x out = elim (Bool-cases (contains x out)) [
  | inl e ↦ elim (Bool-cases (transport_eq t x)) [
    | inl q ↦ ground (arith, ap (λ y. contains y out) (same t x q))
    | inr q ↦ ground arith
  ]
  | inr e ↦ ground (arith, contains_append t out (x ∷ []))
]

contains-push_absent :
    (t : Transport) (out ts : List Transport)
    → contains t (push_absent out ts) ≡ (contains t out || contains t ts)
unfolding push_absent
contains-push_absent t out [] = ground arith
contains-push_absent t out (x ∷ xs) =
    ground (arith, contains-push_absent t (push_one out x) xs, contains-push_one t x out)

-- Some hint stands for the transport.
abbrev pub mentioned : Transport → List Hint → Bool
mentioned t [] = false
mentioned t (h ∷ hints) = contains t (hinted h) || mentioned t hints

contains-push_hints :
    (t : Transport) (out : List Transport) (hints : List Hint)
    → contains t (push_hints out hints) ≡ (contains t out || mentioned t hints)
unfolding push_hints
contains-push_hints t out [] = ground arith
contains-push_hints t out (h ∷ hints) = ground (
  arith,
  contains-push_hints t (push_absent out (hinted h)) hints,
  contains-push_absent t out (hinted h),
)

contains-push_descriptors :
    (t : Transport) (out ts : List Transport)
    → contains t (push_descriptors out ts) ≡ (contains t out || not (is_other t) && contains t ts)
unfolding push_descriptors
contains-push_descriptors t out [] = ground arith
contains-push_descriptors t out (x ∷ xs) = elim (Bool-cases (is_other x)) [
  | inl o ↦ elim (Bool-cases (transport_eq t x)) [
    | inl q ↦ rw o (ground (arith, contains-push_descriptors t out xs, ap is_other (same t x q), o))
    | inr q ↦ rw (o, q) (contains-push_descriptors t out xs)
  ]
  | inr o ↦ elim (Bool-cases (transport_eq t x)) [
    | inl q ↦ rw o (
        ground (
          arith,
          contains-push_descriptors t (push_one out x) xs,
          contains-push_one t x out,
          ap is_other (same t x q),
          o,
        ))
    | inr q ↦
        rw (o, q)
          (ground
            (arith, contains-push_descriptors t (push_one out x) xs, contains-push_one t x out))
  ]
]

contains-without_internal :
    (t : Transport) (xs : List Transport)
    → contains t (without_internal xs) ≡ (contains t xs && not (transport_eq t internal))
contains-without_internal t [] = refl
contains-without_internal t (x ∷ xs) = elim (Bool-cases (transport_eq t x)) [
  | inl q ↦
      ground (arith, contains-without_internal t xs, ap (λ y. transport_eq y internal) (same t x q))
  | inr q ↦ ground (arith, contains-without_internal t xs)
]

abbrev pub distinct : List Transport → Bool
distinct [] = true
distinct (x ∷ xs) = not (contains x xs) && distinct xs

both : {b : Bool} → b ≡ true → b ≡ false → ⊥
both t f = cc

turned : (a b : Transport) → transport_eq a b ≡ false → transport_eq b a ≡ false
turned a b h = elim (Bool-cases (transport_eq b a)) [
  | inl q ↦ absurd (
      both (subst (λ x. transport_eq x a ≡ true) (same b a q) q)
        (subst (λ x. transport_eq a x ≡ false) (same b a q) h))
  | inr q ↦ q
]

distinct_append :
    (x : Transport) (out : List Transport)
    → distinct out ≡ true
    → contains x out ≡ false
    → distinct (out ++ x ∷ []) ≡ true
distinct_append x [] d c = refl
distinct_append x (y ∷ ys) d c =
    ground (arith, distinct_append x ys, contains_append y ys (x ∷ []), turned x y)

distinct-push_one :
    (x : Transport) (out : List Transport) → distinct out ≡ true → distinct (push_one out x) ≡ true
distinct-push_one x out d = elim (Bool-cases (contains x out)) [
  | inl e ↦ rw e d
  | inr e ↦ rw e (distinct_append x out d e)
]

distinct-push_absent :
    (out ts : List Transport) → distinct out ≡ true → distinct (push_absent out ts) ≡ true
unfolding push_absent
distinct-push_absent out [] d = d
distinct-push_absent out (x ∷ xs) d =
    distinct-push_absent (push_one out x) xs (distinct-push_one x out d)

distinct-push_hints :
    (out : List Transport) (hints : List Hint)
    → distinct out ≡ true
    → distinct (push_hints out hints) ≡ true
unfolding push_hints
distinct-push_hints out [] d = d
distinct-push_hints out (h ∷ hints) d =
    distinct-push_hints (push_absent out (hinted h)) hints (distinct-push_absent out (hinted h) d)

distinct-push_descriptors :
    (out ts : List Transport) → distinct out ≡ true → distinct (push_descriptors out ts) ≡ true
unfolding push_descriptors
distinct-push_descriptors out [] d = d
distinct-push_descriptors out (x ∷ xs) d = elim (Bool-cases (is_other x)) [
  | inl o ↦ rw o (distinct-push_descriptors out xs d)
  | inr o ↦ rw o (distinct-push_descriptors (push_one out x) xs (distinct-push_one x out d))
]

distinct-without_internal :
    (xs : List Transport) → distinct xs ≡ true → distinct (without_internal xs) ≡ true
distinct-without_internal [] d = refl
distinct-without_internal (x ∷ xs) d =
    ground (arith, distinct-without_internal xs, contains-without_internal x xs)

module _ (hints : List Hint) (attachment : Option Attachment)
    (descriptor_transports : List Transport) where
  -- The merged list has a transport exactly if a hint or the attachment stands for it, or if a
  -- credential names it and it is no unknown one; but not the internal transport where a hybrid hint
  -- stands without one for the client device.
  pub contains-merge_transport_preference :
      (t : Transport)
      → contains t (merge_transport_preference hints attachment descriptor_transports) ≡ (
          (mentioned t hints
            || contains t (attached attachment)
            || not (is_other t) && contains t descriptor_transports)
          && not (drops_internal hints && transport_eq t internal))
  unfolding merge_transport_preference
  contains-merge_transport_preference t =
      let hinted_ones = push_hints [] hints in
      let placed = push_absent hinted_ones (attached attachment) in
      let out = push_descriptors placed descriptor_transports in
      ground (
        arith,
        contains-push_hints t [] hints,
        contains-push_absent t hinted_ones (attached attachment),
        contains-push_descriptors t placed descriptor_transports,
        contains-without_internal t out,
      )

  -- No transport stands twice in the merged list.
  pub distinct-merge_transport_preference :
      distinct (merge_transport_preference hints attachment descriptor_transports) ≡ true
  unfolding merge_transport_preference
  distinct-merge_transport_preference =
      let placed = push_absent (push_hints [] hints) (attached attachment) in
      let out = push_descriptors placed descriptor_transports in
      let all = distinct-push_descriptors placed descriptor_transports (
        distinct-push_absent (push_hints [] hints) (attached attachment)
          (distinct-push_hints [] hints refl)) in
      elim (Bool-cases (drops_internal hints)) [
        | inl e ↦ rw e (distinct-without_internal out all)
        | inr e ↦ rw e all
      ]
