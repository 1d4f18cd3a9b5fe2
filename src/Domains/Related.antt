-- ===== src/Domains/Related.antt =====
-- ops/webauthn/related_origins/mod.rs: which listed origins may use an rpId. URL parsing (the `url`
-- crate) is a parameter.
pub mod Refines
use libwebauthn.Prelude.{
  ℕ, suc, ◌+◌, ◌-◌, ◌^◌, Bool, true, false, not, ◌&&◌, ◌||◌, Option, none, some, List, [], ◌∷◌,
  ◌++◌, ◌==◌, ltb, leb, if◌then◌else◌, length, bytes_eq, Result, ok, err,
}
use Prim.Native.Nat.{min}
use libwebauthn.Domains.Text.{dot, first_part}

pub data Scheme : Type 0 where
  https http : Scheme

-- "https" and "http".
abbrev pub scheme_text : Scheme → List ℕ
scheme_text https = 0x68 ∷ 0x74 ∷ 0x74 ∷ 0x70 ∷ 0x73 ∷ []
scheme_text http = 0x68 ∷ 0x74 ∷ 0x74 ∷ 0x70 ∷ []

pub record Origin : Type 0 where
  pub scheme : Scheme
  pub host : List ℕ
  pub port : Option ℕ

-- `url::Host`, with the texts of its addresses.
pub data Host : Type 0 where
  domain ipv4 ipv6 : List ℕ → Host

-- What the code reads of a `url::Url`.
pub record Url : Type 0 where
  pub url_scheme : List ℕ
  pub url_host : Option Host
  pub port_or_known_default : Option ℕ

pub data RelatedError : Type 0 where
  no_matching_origin : RelatedError

-- `MaxRegistrableLabels`.
abbrev pub label_floor : ℕ
label_floor = 5

unfoldable pub max_labels_new : ℕ → Option ℕ
max_labels_new n = if leb label_floor n then some n else none

unfoldable pub max_labels_extra : ℕ → ℕ
max_labels_extra n = min (label_floor + n) (2 ^ 64 - 1)

abbrev pub host_text : Host → List ℕ
host_text (domain d) = d
host_text (ipv4 ip) = ip
host_text (ipv6 ip) = 0x5b ∷ ip ++ 0x5d ∷ []

abbrev pub text_of_host : Option Host → Option (List ℕ)
text_of_host none = none
text_of_host (some h) = some (host_text h)

unfoldable pub effective_domain_of : Url → Option (List ℕ)
effective_domain_of url = text_of_host url.url_host

abbrev pub default_port : Scheme → Option ℕ
default_port https = some 443
default_port http = some 80

abbrev pub or_else : Option ℕ → Option ℕ → Option ℕ
or_else none other = other
or_else (some p) other = some p

abbrev pub port_eq : Option ℕ → Option ℕ → Bool
port_eq none none = true
port_eq (some a) (some b) = a == b
port_eq _ _ = false

abbrev pub is_text : List ℕ → Option (List ℕ) → Bool
is_text text none = false
is_text text (some other) = bytes_eq text other

unfoldable pub same_origin : Origin → Url → Bool
unfolding effective_domain_of
same_origin caller listed =
    bytes_eq (scheme_text caller.scheme) listed.url_scheme
    && is_text caller.host (effective_domain_of listed)
    && port_eq (or_else caller.port (default_port caller.scheme)) listed.port_or_known_default

abbrev pub nonempty_label : List ℕ → Option (List ℕ)
nonempty_label [] = none
nonempty_label (b ∷ bs) = some (b ∷ bs)

module _ (registrable_of : List ℕ → Option (List ℕ)) where
  unfoldable pub registrable_origin_label : List ℕ → Option (List ℕ)
  registrable_origin_label host = elim (registrable_of host) [
    | none ↦ none
    | some registrable ↦ nonempty_label (first_part dot registrable)
  ]

  labelled : Url → Option (List ℕ) → Option (Url × List ℕ)
  labelled url none = none
  labelled url (some label) = some (url, label)

  label_of_domain : Url → Option (List ℕ) → Option (Url × List ℕ)
  unfolding labelled
  label_of_domain url none = none
  label_of_domain url (some effective_domain) =
      labelled url (registrable_origin_label effective_domain)

  -- A listed origin that parses, with a domain that has a label; the loop skips the others.
  unfoldable pub candidate : Option Url → Option (Url × List ℕ)
  unfolding label_of_domain
  candidate none = none
  candidate (some url) = label_of_domain url (effective_domain_of url)

abbrev pub has_label : List ℕ → List (List ℕ) → Bool
has_label label [] = false
has_label label (seen ∷ labels_seen) = bytes_eq label seen || has_label label labels_seen

-- `BTreeSet::insert`, in the order of insertion.
abbrev pub insert : List ℕ → List (List ℕ) → List (List ℕ)
insert label labels_seen =
    if has_label label labels_seen then labels_seen else labels_seen ++ label ∷ []

abbrev pub remember : ℕ → List ℕ → List (List ℕ) → List (List ℕ)
remember cap label labels_seen =
    if ltb (length labels_seen) cap then insert label labels_seen else labels_seen

-- The loop over the listed origins, once each has been looked at for its label.
unfoldable pub match_loop :
    Origin → ℕ → List (List ℕ) → List (Option (Url × List ℕ)) → Result RelatedError (Unit {0})
match_loop caller cap labels_seen [] = err no_matching_origin
match_loop caller cap labels_seen (none ∷ items) = match_loop caller cap labels_seen items
match_loop caller cap labels_seen (some (url, label) ∷ items) =
    elim (leb cap (length labels_seen) && not (has_label label labels_seen)) [
      | true ↦ match_loop caller cap labels_seen items
      | false ↦ elim (same_origin caller url) [
        | true ↦ ok tt
        | false ↦ match_loop caller cap (remember cap label labels_seen) items
      ]
    ]

module _ (parse : List ℕ → Option Url) (registrable_of : List ℕ → Option (List ℕ)) where
  abbrev pub candidates : List (List ℕ) → List (Option (Url × List ℕ))
  candidates [] = []
  candidates (item ∷ origins) = candidate registrable_of (parse item) ∷ candidates origins

  unfoldable pub validate_related_origins :
      Origin → List (List ℕ) → ℕ → Result RelatedError (Unit {0})
  validate_related_origins caller origins cap = match_loop caller cap [] (candidates origins)
