-- ===== src/Domains/RpId.antt =====
-- ops/webauthn/idl/rpid.rs: which texts are relying-party ids. The parameters are the `IpAddr` parser
-- and `idna::domain_to_ascii`.
pub mod Valid
use libwebauthn.Prelude.{
  ℕ, Bool, true, false, not, ◌&&◌, ◌||◌, Option, none, some, List, [], ◌∷◌, ◌==◌, ltb, leb,
  if◌then◌else◌, length, all, Result, ok, err, ◌>>=◌,
}
use libwebauthn.Domains.Text.{dot, split}

pub data RpIdError : Type 0 where
  empty_relying_party_id domain_too_long : RpIdError
  invalid_relying_party_id ip_address_not_allowed label_too_long : List ℕ → RpIdError

abbrev pub hyphen : ℕ
hyphen = 45

abbrev pub is_ascii_alphanumeric : ℕ → Bool
is_ascii_alphanumeric b = leb 48 b && leb b 57 || leb 65 b && leb b 90 || leb 97 b && leb b 122

abbrev pub starts_with : ℕ → List ℕ → Bool
starts_with c [] = false
starts_with c (x ∷ xs) = x == c

abbrev pub ends_with : ℕ → List ℕ → Bool
ends_with c [] = false
ends_with c (x ∷ []) = x == c
ends_with c (x ∷ y ∷ ys) = ends_with c (y ∷ ys)

abbrev pub is_empty : List ℕ → Bool
is_empty [] = true
is_empty (x ∷ xs) = false

abbrev pub is_label_char : ℕ → Bool
is_label_char b = is_ascii_alphanumeric b || b == hyphen

unfoldable pub check_label : List ℕ → List ℕ → Result RpIdError (Unit {0})
check_label value label =
    if is_empty label
    then err (invalid_relying_party_id value)
    else if ltb 63 (length label)
    then err (label_too_long label)
    else if starts_with hyphen label || ends_with hyphen label
    then err (invalid_relying_party_id value)
    else if not (all is_label_char label)
    then err (invalid_relying_party_id value)
    else ok tt

unfoldable pub check_labels : List ℕ → List (List ℕ) → Result RpIdError (Unit {0})
check_labels value [] = ok tt
check_labels value (label ∷ labels) = check_label value label >>= λ _. check_labels value labels

check_ascii : List ℕ → List ℕ → Result RpIdError (List ℕ)
check_ascii value ascii =
    if is_empty ascii
    then err (invalid_relying_party_id value)
    else if ltb 253 (length ascii)
    then err domain_too_long
    else if starts_with dot ascii || ends_with dot ascii
    then err (invalid_relying_party_id value)
    else check_labels value (split dot ascii) >>= λ _. ok ascii

to_result : List ℕ → Option (List ℕ) → Result RpIdError (List ℕ)
to_result value none = err (invalid_relying_party_id value)
to_result value (some ascii) = ok ascii

-- `RelyingPartyId::try_from`.
unfoldable pub try_from :
    (List ℕ → Bool) → (List ℕ → Option (List ℕ)) → List ℕ → Result RpIdError (List ℕ)
unfolding check_ascii to_result
try_from is_ip domain_to_ascii value =
    if is_empty value
    then err empty_relying_party_id
    else if is_ip value
    then err (ip_address_not_allowed value)
    else to_result value (domain_to_ascii value) >>= check_ascii value
