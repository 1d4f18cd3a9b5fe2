-- ===== src/Domains/Text/Labels.antt =====
-- What a suffix at a label boundary is, and how the operations on texts find it.
use libwebauthn.Prelude.{
  ℕ, ◌-◌, ◌≡◌, ◌≢◌, ◌⊎◌, inl, inr, refl, ap, subst, true, false, none, some, List, [], ◌∷◌, ◌++◌,
  ◌==◌, length, drop, bytes_eq, bytes_eq_refl, bytes_eq→eq, arith, length-append, take_append,
  drop_append, take-append-drop, Bool-cases, Option-cases, ==_iff,
}
use libwebauthn.Domains.Text.{dot, contains, split_once, last_part, strip_suffix}

-- `t` is `host` without some of its first labels.
abbrev pub DotSuffix : List ℕ → List ℕ → Type 0
DotSuffix t host = (before : List ℕ) × (host ≡ before ++ dot ∷ t)

-- `t` is `host`, or `host` without some of its first labels.
abbrev pub LabelSuffix : List ℕ → List ℕ → Type 0
LabelSuffix t host = (t ≡ host) ⊎ DotSuffix t host

pub split_once-parts :
    (c : ℕ) (xs before after : List ℕ)
    → split_once c xs ≡ some (before, after)
    → (xs ≡ before ++ c ∷ after) × (contains c before ≡ false)
split_once-parts c [] before after h = cc
split_once-parts c (x ∷ xs) before after h = elim (Bool-cases (x == c)) [
  | inl e ↦ ground (arith, ==_iff x c)
  | inr e ↦ elim (Option-cases (split_once c xs)) [
    | inl n ↦ ground arith
    | inr ((b, a), s) ↦ ground (arith, split_once-parts c xs b a s)
  ]
]

pub split_once-none :
    (c : ℕ) (xs before after : List ℕ) → split_once c xs ≡ none → xs ≢ before ++ c ∷ after
split_once-none c [] [] after h e = cc
split_once-none c (x ∷ xs) [] after h e = ground (arith, ==_iff x c)
split_once-none c [] (y ∷ ys) after h e = cc
split_once-none c (x ∷ xs) (y ∷ ys) after h e = elim (Option-cases (split_once c xs)) [
  | inl n ↦ split_once-none c xs ys after n cc
  | inr ((b, a), s) ↦ ground arith
]

-- A suffix after some dot is the one after the first dot, or a suffix of that.
pub after_first :
    (c : ℕ) (first rest before t : List ℕ)
    → contains c first ≡ false
    → first ++ c ∷ rest ≡ before ++ c ∷ t
    → (t ≡ rest) ⊎ ((between : List ℕ) × (rest ≡ between ++ c ∷ t))
after_first c [] rest [] t h e = inl cc
after_first c [] rest (y ∷ ys) t h e = inr (ys, cc)
after_first c (x ∷ xs) rest [] t h e = ground (arith, ==_iff x c)
after_first c (x ∷ xs) rest (y ∷ ys) t h e = after_first c xs rest ys t (ground arith) cc

length-before : (before suffix : List ℕ) → length (before ++ suffix) - length suffix ≡ length before
length-before before suffix = omega (arith, length-append before suffix)

pub strip_suffix_append :
    (before suffix : List ℕ) → strip_suffix suffix (before ++ suffix) ≡ some before
strip_suffix_append before suffix = ground (
  arith,
  length-before before suffix,
  length-append before suffix,
  take_append before suffix,
  drop_append before suffix,
  bytes_eq_refl suffix,
)

pub strip_suffix-append :
    (suffix text before : List ℕ) → strip_suffix suffix text ≡ some before → text ≡ before ++ suffix
strip_suffix-append suffix text before h =
    let n = length text - length suffix in
    elim (Bool-cases (bytes_eq (drop n text) suffix)) [
      | inl e ↦ ground (arith, take-append-drop n text, bytes_eq→eq (drop n text) suffix e)
      | inr e ↦ ground arith
    ]

pub contains-last_part : (c : ℕ) (xs : List ℕ) → contains c (last_part c xs) ≡ false
contains-last_part c [] = refl
contains-last_part c (x ∷ xs) = ground (arith, contains-last_part c xs)

first_is_dot :
    (x : ℕ) (xs : List ℕ) → contains dot (x ∷ xs) ≡ true → last_part dot xs ≡ xs → x ≡ dot
first_is_dot x xs c e =
    ground (arith, ==_iff x dot, subst (λ l. contains dot l ≡ false) e (contains-last_part dot xs))

whole_after_dot :
    (x : ℕ) (xs : List ℕ) → x ≡ dot → last_part dot xs ≡ xs → x ∷ xs ≡ dot ∷ last_part dot xs
whole_after_dot x xs d e = cc

pub LabelSuffix-last_part : (xs : List ℕ) → LabelSuffix (last_part dot xs) xs
LabelSuffix-last_part [] = inl refl
LabelSuffix-last_part (x ∷ xs) = elim (Bool-cases (contains dot (x ∷ xs))) [
  | inl c ↦ elim (LabelSuffix-last_part xs) [
    | inl e ↦ inr ([], rw c (whole_after_dot x xs (first_is_dot x xs c e) e))
    | inr (before, e) ↦ inr (x ∷ before, rw c (ap (λ l. x ∷ l) e))
  ]
  | inr c ↦ inl (rw c refl)
]
