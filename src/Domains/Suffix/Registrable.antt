-- ===== src/Domains/Suffix/Registrable.antt =====
-- ops/webauthn/psl/mod.rs: what a registrable domain is, and which rpIds it lets an origin use.
use libwebauthn.Prelude.{
  ℕ, ◌<◌, ◌≡◌, ◌≢◌, inl, inr, refl, ap, subst, Bool, true, false, Option, some, List, [], ◌∷◌, ◌++◌,
  append_assoc, length, arith, length-append, Option-cases,
}
use libwebauthn.Domains.Text.{dot, contains, last_part, strip_suffix}
use libwebauthn.Domains.Text.Labels.{
  LabelSuffix, strip_suffix-append, contains-last_part, LabelSuffix-last_part,
}
use libwebauthn.Domains.Suffix.{
  public_suffix, one_more_label, without_dot, registrable_domain,
  is_registrable_domain_suffix_or_equal,
}
use libwebauthn.Domains.Suffix.Aligned.{is_registrable_domain_suffix_or_equal_iff}
use libwebauthn.Domains.Suffix.Longest.{
  IsLongestPublic, public_suffix-IsLongestPublic, length-LabelSuffix,
}

-- One label in front of a suffix, where both together are a suffix of the host.
pub record OneMoreLabel (host suffix rd : List ℕ) : Type 0 where
  pub label : List ℕ
  pub one_label : contains dot label ≡ false
  pub in_front : rd ≡ label ++ dot ∷ suffix
  pub of_host : LabelSuffix rd host

LabelSuffix-append :
    (t host tail : List ℕ) → LabelSuffix t host → LabelSuffix (t ++ tail) (host ++ tail)
LabelSuffix-append t host tail (inl e) = inl (rw e refl)
LabelSuffix-append t host tail (inr (before, e)) =
    inr (before, rw (e, append_assoc before (dot ∷ t) tail) refl)

without_dot-append :
    (text before : List ℕ) → without_dot (some text) ≡ some before → text ≡ before ++ dot ∷ []
unfolding without_dot
without_dot-append text before h = strip_suffix-append (dot ∷ []) text before h

whole_host :
    (host suffix text before : List ℕ)
    → strip_suffix suffix host ≡ some text
    → without_dot (some text) ≡ some before
    → host ≡ before ++ dot ∷ suffix
whole_host host suffix text before s d = ground (
  arith,
  strip_suffix-append suffix host text s,
  without_dot-append text before d,
  append_assoc before (dot ∷ []) suffix,
)

one_more :
    (host suffix before rd : List ℕ)
    → host ≡ before ++ dot ∷ suffix
    → rd ≡ last_part dot before ++ dot ∷ suffix
    → OneMoreLabel host suffix rd
one_more host suffix before rd whole front = record {
  label = last_part dot before;
  one_label = contains-last_part dot before;
  in_front = front;
  of_host =
      rw (whole, front)
        (LabelSuffix-append (last_part dot before) before (dot ∷ suffix)
          (LabelSuffix-last_part before));
}

-- A registrable domain is a suffix of the host at a label boundary, and one label longer than the
-- public suffix of the host.
pub registrable_domain-OneMoreLabel :
    (suffix_of : List ℕ → Option (List ℕ)) (host rd : List ℕ)
    → registrable_domain suffix_of host ≡ some rd
    → (suffix : List ℕ) × (suffix_of host ≡ some suffix) × OneMoreLabel host suffix rd
unfolding registrable_domain one_more_label without_dot
registrable_domain-OneMoreLabel suffix_of host rd h = elim (Option-cases (suffix_of host)) [
  | inl n ↦ ground arith
  | inr (suffix, s) ↦ elim (Option-cases (strip_suffix suffix host)) [
    | inl n ↦ ground arith
    | inr (text, t) ↦ elim (Option-cases (without_dot (some text))) [
      | inl n ↦ ground (arith, n)
      | inr (before, b) ↦ (
        suffix,
        s,
        one_more host suffix before rd (whole_host host suffix text before t b) (ground (arith, b)),
      )
    ]
  ]
]

length-OneMoreLabel :
    (host suffix rd : List ℕ) → OneMoreLabel host suffix rd → length suffix < length rd
length-OneMoreLabel host suffix rd m =
    omega (arith, ap length m.in_front, length-append m.label (dot ∷ suffix))

module _ (is_public : List ℕ → Bool) (rp_id effective_domain : List ℕ) where
  above_suffix :
      (suffix rd : List ℕ)
      → public_suffix is_public effective_domain ≡ some suffix
      → OneMoreLabel effective_domain suffix rd
      → LabelSuffix rd rp_id
      → LabelSuffix rp_id effective_domain
      → is_public rp_id ≡ false
  above_suffix suffix rd s m r a =
      let longest =
        subst (IsLongestPublic is_public effective_domain) s
          (public_suffix-IsLongestPublic is_public effective_domain) in
      longest.2 rp_id a (
        omega
          (arith, length-OneMoreLabel effective_domain suffix rd m, length-LabelSuffix rd rp_id r))

  -- An rpId that is accepted for an origin is the effective domain itself or no public suffix.
  pub is_registrable_domain_suffix_or_equal-private :
      is_registrable_domain_suffix_or_equal
          (registrable_domain (public_suffix is_public))
          rp_id
          effective_domain
        ≡ true
      → rp_id ≢ effective_domain
      → is_public rp_id ≡ false
  is_registrable_domain_suffix_or_equal-private h other =
      let suffix_of = public_suffix is_public in
      elim ((is_registrable_domain_suffix_or_equal_iff (registrable_domain suffix_of) rp_id
          effective_domain).0
        h).1 [
          | inl e ↦ absurd (other e)
          | inr (a, (rd, e, r)) ↦
              let (suffix, s, m) =
                registrable_domain-OneMoreLabel suffix_of effective_domain rd e in
              above_suffix suffix rd s m r (inr a)
        ]
