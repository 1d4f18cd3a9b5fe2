-- ===== src/Domains/RpId/Valid.antt =====
-- ops/webauthn/idl/rpid.rs: the relying-party ids that `try_from` accepts.
use libwebauthn.Prelude.{
  ℕ, ◌≤◌, ◌≡◌, ◌↔◌, inl, inr, refl, ap, subst, ◌∙◌, Bool, true, false, Option, some, List, [], ◌∷◌,
  ◌==◌, length, all, All, if◌then◌else◌, ◌>>=◌, Result, ok, err, arith, Bool-cases, Option-cases,
  Result-cases,
}
use libwebauthn.Domains.Text.{dot, split, onto_first}
use libwebauthn.Domains.RpId.{
  RpIdError, hyphen, is_label_char, starts_with, ends_with, is_empty, check_label, check_labels,
  check_ascii, to_result, try_from,
}

-- A label of a domain name: letters, digits and inner hyphens.
pub record ValidLabel (label : List ℕ) : Type 0 where
  pub nonempty : is_empty label ≡ false
  pub at_most_63 : length label ≤ 63
  pub no_hyphen_first : starts_with hyphen label ≡ false
  pub no_hyphen_last : ends_with hyphen label ≡ false
  pub letters : all is_label_char label ≡ true

check_label_iff : (value label : List ℕ) → check_label value label ≡ ok tt ↔ ValidLabel label
unfolding check_label
check_label_iff value label = (
  λ h. record {
    nonempty = ground arith;
    at_most_63 = ground arith;
    no_hyphen_first = ground arith;
    no_hyphen_last = ground arith;
    letters = ground arith;
  },
  λ v. ground (arith, v.nonempty, v.at_most_63, v.no_hyphen_first, v.no_hyphen_last, v.letters),
)

both_ok :
    (first rest : Result RpIdError (Unit {0}))
    → (first >>= λ _. rest) ≡ ok tt ↔ (first ≡ ok tt) × (rest ≡ ok tt)
both_ok (ok tt) rest = (λ h. (refl, h), λ h. h.1)
both_ok (err e) rest = (λ h. cc, λ h. cc)

check_labels_iff :
    (value : List ℕ) (labels : List (List ℕ))
    → check_labels value labels ≡ ok tt ↔ All ValidLabel labels
unfolding check_labels
check_labels_iff value [] = (λ h. tt, λ h. refl)
check_labels_iff value (label ∷ labels) =
    let both = both_ok (check_label value label) (check_labels value labels) in
    let one = check_label_iff value label in
    let others = check_labels_iff value labels in
    (λ h. (one.0 (both.0 h).0, others.0 (both.0 h).1), λ v. both.1 (one.1 v.0, others.1 v.1))

-- Text with valid labels neither starts nor ends with a dot: one of its labels would be empty.
no_blank_first : (rest : List (List ℕ)) → All ValidLabel ([] ∷ rest) → ⊥
no_blank_first rest v = let blank = v.0.nonempty in cc

no_dot_first : (text : List ℕ) → All ValidLabel (split dot text) → starts_with dot text ≡ false
no_dot_first [] v = refl
no_dot_first (x ∷ xs) v = elim (Bool-cases (x == dot)) [
  | inl e ↦ absurd (
      no_blank_first (split dot xs) (
        subst (λ b. All ValidLabel (if b then [] ∷ split dot xs else onto_first x (split dot xs))) e
          v))
  | inr e ↦ e
]

blank_last : List (List ℕ) → Bool
blank_last [] = false
blank_last (part ∷ []) = is_empty part
blank_last (part ∷ next ∷ parts) = blank_last (next ∷ parts)

blank_end : List (List ℕ) → Bool
blank_end [] = false
blank_end (part ∷ parts) = blank_last parts

blank_last-cons :
    (part : List ℕ) (parts : List (List ℕ))
    → blank_last parts ≡ true
    → blank_last (part ∷ parts) ≡ true
unfolding blank_last
blank_last-cons part [] h = cc
blank_last-cons part (next ∷ parts) h = h

blank_end-blank_last : (parts : List (List ℕ)) → blank_end parts ≡ true → blank_last parts ≡ true
unfolding blank_end
blank_end-blank_last [] h = cc
blank_end-blank_last (part ∷ parts) h = blank_last-cons part parts h

blank_end-onto_first :
    (x : ℕ) (parts : List (List ℕ)) → blank_end parts ≡ true → blank_end (onto_first x parts) ≡ true
unfolding blank_end
blank_end-onto_first x [] h = cc
blank_end-onto_first x (part ∷ parts) h = h

ends_with-blank_end :
    (text : List ℕ) → ends_with dot text ≡ true → blank_end (split dot text) ≡ true
unfolding blank_end blank_last
ends_with-blank_end [] h = cc
ends_with-blank_end (x ∷ []) h = rw h refl
ends_with-blank_end (x ∷ y ∷ ys) h =
    let rest = ends_with-blank_end (y ∷ ys) h in
    elim (Bool-cases (x == dot)) [
      | inl e ↦ rw e (blank_end-blank_last (split dot (y ∷ ys)) rest)
      | inr e ↦ rw e (blank_end-onto_first x (split dot (y ∷ ys)) rest)
    ]

valid_last : (parts : List (List ℕ)) → All ValidLabel parts → blank_last parts ≡ false
unfolding blank_last
valid_last [] v = refl
valid_last (part ∷ []) v = v.0.nonempty
valid_last (part ∷ next ∷ parts) v = valid_last (next ∷ parts) v.1

valid_end : (parts : List (List ℕ)) → All ValidLabel parts → blank_end parts ≡ false
unfolding blank_end
valid_end [] v = refl
valid_end (part ∷ parts) v = valid_last parts v.1

no_dot_last : (text : List ℕ) → All ValidLabel (split dot text) → ends_with dot text ≡ false
no_dot_last text v = elim (Bool-cases (ends_with dot text)) [
  | inl e ↦ ground (arith, ends_with-blank_end text e, valid_end (split dot text) v)
  | inr e ↦ e
]

-- A domain name in ASCII, as DNS limits it.
pub record ValidDomain (ascii : List ℕ) : Type 0 where
  pub at_most_253 : length ascii ≤ 253
  pub valid_labels : All ValidLabel (split dot ascii)

nonblank : (ascii : List ℕ) → All ValidLabel (split dot ascii) → is_empty ascii ≡ false
nonblank [] v = absurd (no_blank_first [] v)
nonblank (x ∷ xs) v = refl

module _ (value ascii rp_id : List ℕ) where
  ascii_checked :
      check_ascii value ascii ≡ ok rp_id
      → (ascii ≡ rp_id) × (length ascii ≤ 253) × (check_labels value (split dot ascii) ≡ ok tt)
  unfolding check_ascii
  ascii_checked h = elim (Result-cases (check_labels value (split dot ascii))) [
    | inl (tt, e) ↦ (ground arith, ground arith, e)
    | inr (r, e) ↦ ground arith
  ]

  ascii_accepted : ValidDomain ascii → ascii ≡ rp_id → check_ascii value ascii ≡ ok rp_id
  unfolding check_ascii
  ascii_accepted v same = ground (
    arith,
    same,
    v.at_most_253,
    nonblank ascii v.valid_labels,
    no_dot_first ascii v.valid_labels,
    no_dot_last ascii v.valid_labels,
    (check_labels_iff value (split dot ascii)).1 v.valid_labels,
  )

  check_ascii-ok : check_ascii value ascii ≡ ok rp_id ↔ (ascii ≡ rp_id) × ValidDomain ascii
  check_ascii-ok = (
    λ h.
        let (same, short, labels) = ascii_checked h in
        (
          same,
          record {
            at_most_253 = short;
            valid_labels = (check_labels_iff value (split dot ascii)).0 labels;
          },
        ),
    λ (same, v). ascii_accepted v same,
  )

module _ (is_ip : List ℕ → Bool) (domain_to_ascii : List ℕ → Option (List ℕ)) where
  -- A text is accepted as an rpId exactly if it is not empty, is no IP address, and has an ASCII form
  -- with valid labels (letters, digits and inner hyphens, 63 bytes at most) and at most 253 bytes;
  -- the rpId is that form.
  pub try_from_iff :
      (value rp_id : List ℕ)
      → try_from is_ip domain_to_ascii value ≡ ok rp_id ↔ (
          (is_empty value ≡ false)
          × (is_ip value ≡ false)
          × (domain_to_ascii value ≡ some rp_id)
          × ValidDomain rp_id)
  unfolding try_from to_result
  try_from_iff value rp_id = (
    λ h. elim (Option-cases (domain_to_ascii value)) [
      | inl n ↦ ground arith
      | inr (ascii, a) ↦
          let (same, v) = (check_ascii-ok value ascii rp_id).0 (ground arith) in
          (ground arith, ground arith, a ∙ ap some same, subst ValidDomain same v)
    ],
    λ (nonempty, no_ip, a, v).
        ground (arith, nonempty, no_ip, a, (check_ascii-ok value rp_id rp_id).1 (refl, v)),
  )
