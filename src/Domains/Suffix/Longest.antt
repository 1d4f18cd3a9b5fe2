-- ===== src/Domains/Suffix/Longest.antt =====
-- ops/webauthn/psl/dafsa.rs: the loop of `public_suffix` finds the longest suffix that is public.
use libwebauthn.Prelude.{
  ℕ, zero, suc, ◌≤◌, ◌<◌, ◌≡◌, ◌⊎◌, inl, inr, refl, sym, ap, subst, Bool, true, false, Option, none,
  some, List, ◌∷◌, ◌++◌, append_assoc, length, arith, length-append, Bool-cases, Option-cases,
}
use libwebauthn.Domains.Text.{dot, contains, split_once}
use libwebauthn.Domains.Text.Labels.{LabelSuffix, split_once-parts, split_once-none, after_first}
use libwebauthn.Domains.Suffix.{public_suffix_loop, public_suffix}

-- No suffix at a label boundary is public, but those of at most `n` bytes.
abbrev pub NonePublicAbove : (List ℕ → Bool) → ℕ → List ℕ → Type 0
NonePublicAbove is_public n host =
    (t : List ℕ) → LabelSuffix t host → n < length t → is_public t ≡ false

-- The longest public suffix of `host`, if there is one.
abbrev pub IsLongestPublic : (List ℕ → Bool) → List ℕ → Option (List ℕ) → Type 0
IsLongestPublic is_public host none = (t : List ℕ) → LabelSuffix t host → is_public t ≡ false
IsLongestPublic is_public host (some s) =
    LabelSuffix s host × (is_public s ≡ true) × NonePublicAbove is_public (length s) host

pub length-LabelSuffix : (t host : List ℕ) → LabelSuffix t host → length t ≤ length host
length-LabelSuffix t host (inl e) = rw e (omega arith)
length-LabelSuffix t host (inr (before, e)) = rw e (omega (arith, length-append before (dot ∷ t)))

suffix_of_rest :
    (before rest s : List ℕ) → LabelSuffix s rest → LabelSuffix s (before ++ dot ∷ rest)
suffix_of_rest before rest s (inl e) = inr (before, rw e refl)
suffix_of_rest before rest s (inr (between, e)) =
    inr (before ++ dot ∷ between, rw (e, append_assoc before (dot ∷ between) (dot ∷ s)) refl)

rest_of_suffix :
    (before rest t : List ℕ)
    → contains dot before ≡ false
    → LabelSuffix t (before ++ dot ∷ rest)
    → (t ≡ before ++ dot ∷ rest) ⊎ LabelSuffix t rest
rest_of_suffix before rest t c (inl e) = inl e
rest_of_suffix before rest t c (inr (other, e)) = inr (after_first dot before rest other t c e)

module _ (is_public : List ℕ → Bool) where
  -- What holds of the suffixes of the rest holds of those of the host, which itself is not public.
  private_whole :
      (before rest t : List ℕ)
      → contains dot before ≡ false
      → is_public (before ++ dot ∷ rest) ≡ false
      → LabelSuffix t (before ++ dot ∷ rest)
      → (LabelSuffix t rest → is_public t ≡ false)
      → is_public t ≡ false
  private_whole before rest t c h s k = elim (rest_of_suffix before rest t c s) [
    | inl e ↦ rw e h
    | inr s' ↦ k s'
  ]

  Longest-rest :
      (before rest : List ℕ) (found : Option (List ℕ))
      → contains dot before ≡ false
      → is_public (before ++ dot ∷ rest) ≡ false
      → IsLongestPublic is_public rest found
      → IsLongestPublic is_public (before ++ dot ∷ rest) found
  Longest-rest before rest none c h p = λ t s. private_whole before rest t c h s (p t)
  Longest-rest before rest (some s) c h (p, q, r) = (
    suffix_of_rest before rest s p,
    q,
    λ t s' lt. private_whole before rest t c h s' (λ s''. r t s'' lt),
  )

  single_label :
      (current t : List ℕ)
      → split_once dot current ≡ none
      → is_public current ≡ false
      → LabelSuffix t current
      → is_public t ≡ false
  single_label current t n h (inl e) = rw e h
  single_label current t n h (inr (before, e)) = absurd (split_once-none dot current before t n e)

  Longest-loop :
      (fuel : ℕ) (current : List ℕ)
      → length current < fuel
      → IsLongestPublic is_public current (public_suffix_loop is_public fuel current)
  unfolding public_suffix_loop
  Longest-loop zero current h = absurd (omega arith)
  Longest-loop (suc fuel) current h = elim (Bool-cases (is_public current)) [
    | inl e ↦ rw e (inl refl, e, λ t s lt. absurd (omega (arith, length-LabelSuffix t current s)))
    | inr e ↦ elim (Option-cases (split_once dot current)) [
      | inl n ↦ rw (e, n) (λ t s. single_label current t n e s)
      | inr ((label, rest), s) ↦
          let (whole, free) = split_once-parts dot current label rest s in
          rw (e, s)
            (subst (λ l. IsLongestPublic is_public l (public_suffix_loop is_public fuel rest))
              (sym whole)
              (Longest-rest label rest (public_suffix_loop is_public fuel rest) free
                (subst (λ l. is_public l ≡ false) whole e)
                (Longest-loop fuel rest
                  (omega (arith, ap length whole, length-append label (dot ∷ rest))))))
    ]
  ]

  -- `public_suffix` gives the longest suffix of the host at a label boundary that is public, the
  -- host itself included, and none exactly when no such suffix is public.
  pub public_suffix-IsLongestPublic :
      (host : List ℕ) → IsLongestPublic is_public host (public_suffix is_public host)
  unfolding public_suffix
  public_suffix-IsLongestPublic host = Longest-loop (suc (length host)) host (omega arith)
