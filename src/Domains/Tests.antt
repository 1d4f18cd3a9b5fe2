-- ===== src/Domains/Tests.antt =====
-- The list of the unit tests in ops/webauthn/psl/dafsa.rs, and instances of the theorems.
use libwebauthn.Prelude.{
  ℕ, ◌≡◌, ◌≢◌, ◌↔◌, ◌⊎◌, arith, refl, Bool, true, false, Option, none, some, List, [], ◌∷◌, ok,
}
use libwebauthn.Domains.Text.{dot}
use libwebauthn.Domains.Text.Labels.{DotSuffix}
use libwebauthn.Domains.Suffix.{
  public_suffix, public_suffix_loop, registrable_domain, is_registrable_domain_suffix_or_equal,
}
use libwebauthn.Domains.Suffix.Longest.{IsLongestPublic, public_suffix-IsLongestPublic}
use libwebauthn.Domains.Suffix.Aligned.{Reaches, is_registrable_domain_suffix_or_equal_iff}
use libwebauthn.Domains.Suffix.Registrable.{
  OneMoreLabel, registrable_domain-OneMoreLabel, is_registrable_domain_suffix_or_equal-private,
}
use libwebauthn.Domains.Dafsa.Bounds.{lookup_loop-ends}
use libwebauthn.Domains.RpId.{try_from, check_label, check_labels, is_empty}
use libwebauthn.Domains.RpId.Valid.{ValidDomain, try_from_iff}
use libwebauthn.Domains.Related.{
  Origin, Url, domain, https, validate_related_origins, candidates, candidate, match_loop,
  same_origin, effective_domain_of, registrable_origin_label,
}
use libwebauthn.Domains.Related.Refines.{Listed, counted_labels, validate_related_origins-Listed}
use libwebauthn.Domains.Dafsa.{
  start, lookup, lookup_loop, lookup_round, get_next_offset, match_label, get_return_value,
  is_public_suffix, parse_header,
}

-- com, uk, co.uk, *.kw, !foo.kw and github.io.
abbrev graph : List ℕ
graph =
    0x05 ∷ 0x03 ∷ 0x0a ∷ 0x07 ∷ 0x87 ∷ 0x6b ∷ 0x77 ∷ 0x86 ∷ 0x67 ∷ 0x69 ∷ 0x74 ∷ 0x68 ∷ 0x75 ∷ 0x62
    ∷ 0x2e ∷ 0x69 ∷ 0x6f ∷ 0x88 ∷ 0x66 ∷ 0x6f ∷ 0x6f ∷ 0x2e ∷ 0x6b ∷ 0x77 ∷ 0x85 ∷ 0x63 ∷ 0xef
    ∷ 0x02 ∷ 0x82 ∷ 0xed ∷ 0x84 ∷ 0x2e ∷ 0x75 ∷ 0x6b ∷ 0x84 ∷ []

-- "com", "co.uk", "foo.kw" and "b.kw".
abbrev plain : List ℕ
plain = 0x63 ∷ 0x6f ∷ 0x6d ∷ []

abbrev co_uk : List ℕ
co_uk = 0x63 ∷ 0x6f ∷ 0x2e ∷ 0x75 ∷ 0x6b ∷ []

abbrev foo_kw : List ℕ
foo_kw = 0x66 ∷ 0x6f ∷ 0x6f ∷ 0x2e ∷ 0x6b ∷ 0x77 ∷ []

abbrev b_kw : List ℕ
b_kw = 0x62 ∷ 0x2e ∷ 0x6b ∷ 0x77 ∷ []

finds_com : lookup graph plain ≡ some 4
unfolding lookup lookup_loop get_next_offset lookup_round match_label get_return_value
finds_com = refl

finds_co_uk : lookup graph co_uk ≡ some 4
unfolding lookup lookup_loop get_next_offset lookup_round match_label get_return_value
finds_co_uk = refl

finds_exception : lookup graph foo_kw ≡ some 5
unfolding lookup lookup_loop get_next_offset lookup_round match_label get_return_value
finds_exception = refl

b_under_wildcard : is_public_suffix graph b_kw ≡ true
unfolding is_public_suffix lookup lookup_loop get_next_offset lookup_round match_label
    get_return_value
b_under_wildcard = refl

foo_excepted : is_public_suffix graph foo_kw ≡ false
unfolding is_public_suffix lookup lookup_loop get_next_offset lookup_round match_label
    get_return_value
foo_excepted = refl

header_parses :
    parse_header (
      0x2e ∷ 0x44 ∷ 0x41 ∷ 0x46 ∷ 0x53 ∷ 0x41 ∷ 0x40 ∷ 0x50 ∷ 0x53 ∷ 0x4c ∷ 0x5f ∷ 0x30 ∷ 0x20
      ∷ 0x20 ∷ 0x20 ∷ 0x0a ∷ graph)
    ≡ ok graph
unfolding parse_header
header_parses = refl

lookup_loop-ends_example : lookup_loop graph co_uk 1000 start 0 ≡ some (lookup graph co_uk)
lookup_loop-ends_example = lookup_loop-ends graph co_uk 1000 (omega arith)

-- "a.com" and "b.a.com".
abbrev site : List ℕ
site = 0x61 ∷ dot ∷ plain

abbrev sub_site : List ℕ
sub_site = 0x62 ∷ dot ∷ site

abbrev listed_suffix : List ℕ → Option (List ℕ)
listed_suffix = public_suffix (is_public_suffix graph)

site_registrable : registrable_domain listed_suffix sub_site ≡ some site
unfolding registrable_domain public_suffix public_suffix_loop is_public_suffix lookup lookup_loop
    get_next_offset lookup_round match_label get_return_value
site_registrable = refl

site_allowed :
    is_registrable_domain_suffix_or_equal (registrable_domain listed_suffix) site sub_site ≡ true
unfolding is_registrable_domain_suffix_or_equal registrable_domain public_suffix public_suffix_loop
    is_public_suffix lookup lookup_loop get_next_offset lookup_round match_label get_return_value
site_allowed = refl

plain_refused :
    is_registrable_domain_suffix_or_equal (registrable_domain listed_suffix) plain sub_site ≡ false
unfolding is_registrable_domain_suffix_or_equal registrable_domain public_suffix public_suffix_loop
    is_public_suffix lookup lookup_loop get_next_offset lookup_round match_label get_return_value
plain_refused = refl

public_suffix-IsLongestPublic_example :
    IsLongestPublic
      (is_public_suffix graph)
      sub_site
      (public_suffix (is_public_suffix graph) sub_site)
public_suffix-IsLongestPublic_example =
    public_suffix-IsLongestPublic (is_public_suffix graph) sub_site

is_registrable_domain_suffix_or_equal_iff_example :
    is_registrable_domain_suffix_or_equal (registrable_domain listed_suffix) site sub_site ≡ true
    ↔ ((site ≢ [])
        × ((site ≡ sub_site)
            ⊎ (DotSuffix site sub_site × Reaches site (registrable_domain listed_suffix sub_site))))
is_registrable_domain_suffix_or_equal_iff_example =
    is_registrable_domain_suffix_or_equal_iff (registrable_domain listed_suffix) site sub_site

registrable_domain-OneMoreLabel_example :
    (suffix : List ℕ) × (listed_suffix sub_site ≡ some suffix) × OneMoreLabel sub_site suffix site
registrable_domain-OneMoreLabel_example =
    registrable_domain-OneMoreLabel listed_suffix sub_site site site_registrable

site_other : site ≢ sub_site
site_other e = cc

is_registrable_domain_suffix_or_equal-private_example : is_public_suffix graph site ≡ false
is_registrable_domain_suffix_or_equal-private_example =
    is_registrable_domain_suffix_or_equal-private (is_public_suffix graph) site sub_site
      site_allowed site_other

abbrev no_ip : List ℕ → Bool
no_ip value = false

abbrev as_is : List ℕ → Option (List ℕ)
as_is value = some value

accepts_site : try_from no_ip as_is site ≡ ok site
unfolding try_from check_labels check_label
accepts_site = refl

try_from_iff_example :
    try_from no_ip as_is site ≡ ok site
    ↔ ((is_empty site ≡ false) × (no_ip site ≡ false) × (as_is site ≡ some site) × ValidDomain site)
try_from_iff_example = try_from_iff no_ip as_is site site

-- Listed origins are hosts of https origins here.
abbrev https_url : List ℕ → Option Url
https_url host = some (record {
  url_scheme = 0x68 ∷ 0x74 ∷ 0x74 ∷ 0x70 ∷ 0x73 ∷ [];
  url_host = some (domain host);
  port_or_known_default = some 443;
})

abbrev at_site : Origin
at_site = record { scheme = https; host = site; port = none }

listed_allowed :
    validate_related_origins https_url
      (registrable_domain listed_suffix)
      at_site
      (sub_site ∷ site ∷ [])
      5
    ≡ ok tt
unfolding validate_related_origins match_loop same_origin candidate registrable_origin_label
    effective_domain_of registrable_domain public_suffix public_suffix_loop is_public_suffix lookup
    lookup_loop get_next_offset lookup_round match_label get_return_value
listed_allowed = refl

validate_related_origins-Listed_example :
    validate_related_origins https_url
        (registrable_domain listed_suffix)
        at_site
        (sub_site ∷ site ∷ [])
        5
      ≡ ok tt
    ↔ Listed at_site
        (counted_labels 5
          (candidates https_url (registrable_domain listed_suffix) (sub_site ∷ site ∷ [])))
        (candidates https_url (registrable_domain listed_suffix) (sub_site ∷ site ∷ []))
validate_related_origins-Listed_example =
    validate_related_origins-Listed https_url (registrable_domain listed_suffix) at_site
      (sub_site ∷ site ∷ []) 5
