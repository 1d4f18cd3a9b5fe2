-- ===== src/Domains/Suffix.antt =====
-- ops/webauthn/psl/mod.rs (`registrable_domain` over any list of public suffixes), the loop that finds
-- a public suffix, and `is_registrable_domain_suffix_or_equal` of ops/webauthn/idl/origin.rs.
pub mod Longest
pub mod Aligned
pub mod Registrable
use libwebauthn.Prelude.{
  ℕ, zero, suc, ◌+◌, ◌-◌, Bool, true, false, not, ◌&&◌, Option, none, some, List, [], ◌∷◌, ◌++◌,
  ◌==◌, leb, if◌then◌else◌, length, drop, get_elem?, bytes_eq,
}
use libwebauthn.Domains.Text.{dot, split_once, last_part, strip_suffix}

-- The loop of `public_suffix`, over what one step tests; every round that goes on drops a label.
unfoldable pub public_suffix_loop : (List ℕ → Bool) → ℕ → List ℕ → Option (List ℕ)
public_suffix_loop is_public zero current = none
public_suffix_loop is_public (suc fuel) current =
    if is_public current then some current else elim (split_once dot current) [
      | none ↦ none
      | some (label, rest) ↦ public_suffix_loop is_public fuel rest
    ]

unfoldable pub public_suffix : (List ℕ → Bool) → List ℕ → Option (List ℕ)
public_suffix is_public host = public_suffix_loop is_public (suc (length host)) host

one_more_label : List ℕ → Option (List ℕ) → Option (List ℕ)
one_more_label suffix none = none
one_more_label suffix (some before) = some (last_part dot before ++ dot ∷ suffix)

without_dot : Option (List ℕ) → Option (List ℕ)
without_dot none = none
without_dot (some before) = strip_suffix (dot ∷ []) before

-- `PublicSuffixList::registrable_domain`, its default.
unfoldable pub registrable_domain : (List ℕ → Option (List ℕ)) → List ℕ → Option (List ℕ)
unfolding one_more_label without_dot
registrable_domain suffix_of host = elim (suffix_of host) [
  | none ↦ none
  | some suffix ↦
      if bytes_eq host suffix
      then none
      else one_more_label suffix (without_dot (strip_suffix suffix host))
]

is_dot : Option ℕ → Bool
is_dot none = false
is_dot (some b) = b == dot

-- Whether `part` is the end of `text`, behind a dot.
ends_at_label : List ℕ → List ℕ → Bool
unfolding is_dot
ends_at_label part text =
    not (leb (length text) (length part))
    && is_dot (get_elem? text (length text - length part - 1))
    && bytes_eq (drop (length text - length part - 1 + 1) text) part

-- The effective domain's registrable domain is the rpId or a suffix of it.
reaches : List ℕ → Option (List ℕ) → Bool
unfolding ends_at_label
reaches rp_id none = false
reaches rp_id (some rd) = if bytes_eq rp_id rd then true else ends_at_label rd rp_id

unfoldable pub is_registrable_domain_suffix_or_equal :
    (List ℕ → Option (List ℕ)) → List ℕ → List ℕ → Bool
unfolding reaches
is_registrable_domain_suffix_or_equal registrable_of rp_id effective_domain =
    if bytes_eq rp_id []
    then false
    else if bytes_eq rp_id effective_domain
    then true
    else if ends_at_label rp_id effective_domain
    then reaches rp_id (registrable_of effective_domain)
    else false
