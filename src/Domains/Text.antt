-- ===== src/Domains/Text.antt =====
-- The operations of Rust's `str` that the domain code uses, on texts as lists of bytes.
pub mod Labels
use libwebauthn.Prelude.{
  ℕ, ◌-◌, Bool, true, false, not, ◌||◌, Option, none, some, List, [], ◌∷◌, ◌++◌, ◌==◌, leb,
  if◌then◌else◌, length, take, drop, bytes_eq,
}

abbrev pub dot : ℕ
dot = 46

abbrev pub contains : ℕ → List ℕ → Bool
contains c [] = false
contains c (x ∷ xs) = x == c || contains c xs

abbrev pub with_first : ℕ → Option (List ℕ × List ℕ) → Option (List ℕ × List ℕ)
with_first x none = none
with_first x (some (before, after)) = some (x ∷ before, after)

-- `split_once`.
abbrev pub split_once : ℕ → List ℕ → Option (List ℕ × List ℕ)
split_once c [] = none
split_once c (x ∷ xs) = if x == c then some ([], xs) else with_first x (split_once c xs)

-- `split(c).next()`.
abbrev pub first_part : ℕ → List ℕ → List ℕ
first_part c [] = []
first_part c (x ∷ xs) = if x == c then [] else x ∷ first_part c xs

-- `rsplit(c).next()`.
abbrev pub last_part : ℕ → List ℕ → List ℕ
last_part c [] = []
last_part c (x ∷ xs) = if contains c (x ∷ xs) then last_part c xs else x ∷ xs

abbrev pub onto_first : ℕ → List (List ℕ) → List (List ℕ)
onto_first x [] = (x ∷ []) ∷ []
onto_first x (part ∷ parts) = (x ∷ part) ∷ parts

-- `split`.
abbrev pub split : ℕ → List ℕ → List (List ℕ)
split c [] = [] ∷ []
split c (x ∷ xs) = if x == c then [] ∷ split c xs else onto_first x (split c xs)

-- `strip_suffix`.
abbrev pub strip_suffix : List ℕ → List ℕ → Option (List ℕ)
strip_suffix suffix text =
    if leb (length suffix) (length text)
    then if bytes_eq (drop (length text - length suffix) text) suffix
      then some (take (length text - length suffix) text)
      else none
    else none
