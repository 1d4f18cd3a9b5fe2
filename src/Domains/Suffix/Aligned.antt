-- ===== src/Domains/Suffix/Aligned.antt =====
-- ops/webauthn/idl/origin.rs: what `is_registrable_domain_suffix_or_equal` accepts.
use libwebauthn.Prelude.{
  ℕ, zero, suc, ◌+◌, ◌-◌, ◌≡◌, ◌≢◌, ◌↔◌, ◌⊎◌, inl, inr, refl, sym, subst, true, Option, none, some,
  List, [], ◌∷◌, ◌++◌, length, take, drop, get_elem?, bytes_eq, if◌then◌else◌, bytes_eq_refl,
  bytes_eq→eq, arith, length-append, take-append-drop, Bool-cases, Option-cases, ==_iff,
}
use libwebauthn.Domains.Text.{dot}
use libwebauthn.Domains.Text.Labels.{DotSuffix, LabelSuffix}
use libwebauthn.Domains.Suffix.{
  is_dot, ends_at_label, reaches, is_registrable_domain_suffix_or_equal,
}

drop-get_elem? :
    (n : ℕ) (xs : List ℕ) (x : ℕ) → get_elem? xs n ≡ some x → drop n xs ≡ x ∷ drop (suc n) xs
drop-get_elem? n [] x h = cc
drop-get_elem? zero (y ∷ ys) x h = ground arith
drop-get_elem? (suc n) (y ∷ ys) x h = drop-get_elem? n ys x h

get_elem?_append :
    (before rest : List ℕ) (x : ℕ) → get_elem? (before ++ x ∷ rest) (length before) ≡ some x
get_elem?_append [] rest x = refl
get_elem?_append (y ∷ ys) rest x = get_elem?_append ys rest x

drop_after : (before rest : List ℕ) (x : ℕ) → drop (suc (length before)) (before ++ x ∷ rest) ≡ rest
drop_after [] rest x = refl
drop_after (y ∷ ys) rest x = drop_after ys rest x

add_one : (n : ℕ) → n + 1 ≡ suc n
add_one n = omega arith

boundary : (before part : List ℕ) → length (before ++ dot ∷ part) - length part - 1 ≡ length before
boundary before part = omega (arith, length-append before (dot ∷ part))

DotSuffix-at :
    (part text : List ℕ) (n : ℕ) (b : ℕ)
    → get_elem? text n ≡ some b
    → b ≡ dot
    → drop (n + 1) text ≡ part
    → DotSuffix part text
DotSuffix-at part text n b g d e =
    (take n text, ground (arith, take-append-drop n text, drop-get_elem? n text b g, add_one n))

ends_at_label→DotSuffix :
    (part text : List ℕ) → ends_at_label part text ≡ true → DotSuffix part text
unfolding ends_at_label is_dot
ends_at_label→DotSuffix part text h =
    let n = length text - length part - 1 in
    elim (Option-cases (get_elem? text n)) [
      | inl e ↦ ground arith
      | inr (b, e) ↦
          DotSuffix-at part text n b e (ground (arith, ==_iff b dot))
            (ground (arith, bytes_eq→eq (drop (n + 1) text) part))
    ]

DotSuffix→ends_at_label : (part before : List ℕ) → ends_at_label part (before ++ dot ∷ part) ≡ true
unfolding ends_at_label is_dot
DotSuffix→ends_at_label part before = ground (
  arith,
  boundary before part,
  add_one (length before),
  length-append before (dot ∷ part),
  get_elem?_append before part dot,
  drop_after before part dot,
  bytes_eq_refl part,
)

ends_at_label_iff : (part text : List ℕ) → ends_at_label part text ≡ true ↔ DotSuffix part text
ends_at_label_iff part text =
    (ends_at_label→DotSuffix part text, λ (before, e). rw e (DotSuffix→ends_at_label part before))

some_inj : {a b : List ℕ} → some a ≡ some b → a ≡ b
some_inj e = cc

bytes_eq_iff : (xs ys : List ℕ) → bytes_eq xs ys ≡ true ↔ xs ≡ ys
bytes_eq_iff xs ys = (bytes_eq→eq xs ys, λ e. rw e (bytes_eq_refl ys))

-- The registrable domain, if there is one, is the rpId or behind a dot in it.
abbrev pub Reaches : List ℕ → Option (List ℕ) → Type 0
Reaches rp_id registrable = (rd : List ℕ) × (registrable ≡ some rd) × LabelSuffix rd rp_id

accepts :
    (rd rp_id : List ℕ)
    → LabelSuffix rd rp_id
    → (if bytes_eq rp_id rd then true else ends_at_label rd rp_id) ≡ true
accepts rd rp_id (inl e) = ground (arith, bytes_eq_iff rp_id rd, sym e)
accepts rd rp_id (inr s) = ground (arith, (ends_at_label_iff rd rp_id).1 s)

reaches_iff :
    (rp_id : List ℕ) (registrable : Option (List ℕ))
    → reaches rp_id registrable ≡ true ↔ Reaches rp_id registrable
unfolding reaches
reaches_iff rp_id none = (λ h. cc, λ (rd, e, s). cc)
reaches_iff rp_id (some rd) = (
  λ h. (
    rd,
    refl,
    elim (Bool-cases (bytes_eq rp_id rd)) [
      | inl e ↦ inl (sym (bytes_eq→eq rp_id rd e))
      | inr e ↦ inr (ends_at_label→DotSuffix rd rp_id (ground arith))
    ],
  ),
  λ (r, e, s). accepts rd rp_id (subst (λ d. LabelSuffix d rp_id) (sym (some_inj e)) s),
)

AllowedBy : (List ℕ → Option (List ℕ)) → List ℕ → List ℕ → Type 0
AllowedBy registrable_of rp_id effective_domain =
    (rp_id ≡ effective_domain)
    ⊎ (DotSuffix rp_id effective_domain × Reaches rp_id (registrable_of effective_domain))

module _ (registrable_of : List ℕ → Option (List ℕ)) (rp_id effective_domain : List ℕ) where
  allowed :
      is_registrable_domain_suffix_or_equal registrable_of rp_id effective_domain ≡ true
      → AllowedBy registrable_of rp_id effective_domain
  unfolding is_registrable_domain_suffix_or_equal AllowedBy
  allowed h = elim (Bool-cases (bytes_eq rp_id effective_domain)) [
    | inl e ↦ inl (bytes_eq→eq rp_id effective_domain e)
    | inr e ↦ inr (
      ends_at_label→DotSuffix rp_id effective_domain (ground arith),
      (reaches_iff rp_id (registrable_of effective_domain)).0 (ground arith),
    )
  ]

  allows :
      rp_id ≢ []
      → AllowedBy registrable_of rp_id effective_domain
      → is_registrable_domain_suffix_or_equal registrable_of rp_id effective_domain ≡ true
  unfolding is_registrable_domain_suffix_or_equal AllowedBy
  allows nonempty (inl e) =
      ground (arith, bytes_eq_iff rp_id [], bytes_eq_iff rp_id effective_domain)
  allows nonempty (inr (s, r)) = ground (
    arith,
    bytes_eq_iff rp_id [],
    (ends_at_label_iff rp_id effective_domain).1 s,
    (reaches_iff rp_id (registrable_of effective_domain)).1 r,
  )

  -- An rpId is accepted exactly if it is not empty and either is the effective domain, or follows a
  -- dot in it, where the effective domain has a registrable domain that is the rpId or follows a
  -- dot in the rpId.
  pub is_registrable_domain_suffix_or_equal_iff :
      is_registrable_domain_suffix_or_equal registrable_of rp_id effective_domain ≡ true ↔ (
        (rp_id ≢ [])
        × ((rp_id ≡ effective_domain)
            ⊎ (DotSuffix rp_id effective_domain × Reaches rp_id (registrable_of effective_domain))))
  unfolding AllowedBy is_registrable_domain_suffix_or_equal
  is_registrable_domain_suffix_or_equal_iff = (
    λ h. (λ e. ground (arith, bytes_eq_iff rp_id []), allowed h),
    λ (nonempty, a). allows nonempty a,
  )
