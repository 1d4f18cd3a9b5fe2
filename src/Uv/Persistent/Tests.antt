-- ===== src/Uv/Persistent/Tests.antt =====
-- A store with an old record of the device and one of a sibling, gone over in another order than it
-- stands in, and the theorems at it.
use libwebauthn.Prelude.{
  ℕ, ◌≡◌, refl, sym, subst, ◌∙◌, false, none, some, List, [], ◌∷◌, ◌++◌, replicate, if◌then◌else◌,
  String, str_eq, Bool-cases, inl, inr, ok,
}
use libwebauthn.Uv.Info.{GetInfo}
use libwebauthn.Uv.Token.{two}
use libwebauthn.Uv.Records.{TokenRecord, TokenStore}
use libwebauthn.Uv.Crypto.{Crypto}
use libwebauthn.Uv.Tests.{plain, fingerprint_key}
use libwebauthn.Uv.Persistent.{
  put, delete, delete_superseded, reap_superseded_records, store_minted_token,
}
use libwebauthn.Uv.Persistent.Lookup.{lookup, Distinct, Lists, same_key, other_way, at_head, behind}
use libwebauthn.Uv.Persistent.Minting.{kept, minted, store_minted_token-replaces}

-- The first entry comes last.
abbrev rotated : TokenStore → TokenStore
rotated [] = []
rotated (entry ∷ store) = store ++ entry ∷ []

lookup-last :
    (key id : String) (r : TokenRecord) (store : TokenStore)
    → lookup id store ≡ none
    → lookup key (store ++ (id, r) ∷ []) ≡ lookup key ((id, r) ∷ store)
lookup-last key id r [] h = refl
lookup-last key id r ((other, s) ∷ store) h = elim (Bool-cases (str_eq other id)) [
  | inl e ↦ cc (at_head other s store id e, h)
  | inr e ↦
      let last = lookup-last key id r store (sym (behind other s store id e) ∙ h) in
      elim (Bool-cases (str_eq other key)) [
        | inl there ↦
            let first =
              subst (λ k. str_eq id k ≡ false) (same_key other key there) (other_way id other e) in
            rw (there, first) refl
        | inr elsewhere ↦ rw elsewhere last
      ]
]

missing-last :
    (key id : String) (r : TokenRecord) (store : TokenStore)
    → lookup id store ≡ none
    → lookup key store ≡ none
    → str_eq id key ≡ false
    → lookup key (store ++ (id, r) ∷ []) ≡ none
missing-last key id r store h g e = lookup-last key id r store h ∙ behind id r store key e ∙ g

Distinct-last :
    (id : String) (r : TokenRecord) (store : TokenStore)
    → lookup id store ≡ none
    → Distinct store
    → Distinct (store ++ (id, r) ∷ [])
Distinct-last id r [] h g = (refl, tt)
Distinct-last id r ((other, s) ∷ store) h g = elim (Bool-cases (str_eq other id)) [
  | inl e ↦ cc (at_head other s store id e, h)
  | inr e ↦
      let missing = sym (behind other s store id e) ∙ h in
      (
        missing-last other id r store missing g.0 (other_way id other e),
        Distinct-last id r store missing g.1,
      )
]

Distinct-rotated : (store : TokenStore) → Distinct store → Distinct (rotated store)
Distinct-rotated [] h = tt
Distinct-rotated ((id, r) ∷ store) h = Distinct-last id r store h.0 h.1

lookup-rotated :
    (store : TokenStore) (key : String)
    → Distinct store
    → lookup key (rotated store) ≡ lookup key store
lookup-rotated [] key h = refl
lookup-rotated ((id, r) ∷ store) key h = lookup-last key id r store h.0

abbrev crypto : Crypto
crypto = record plain { listed = rotated }

abbrev crypto-Lists : Lists crypto
crypto-Lists = record { distinct_listed = Distinct-rotated; lookup_listed = lookup-rotated }

-- A device that gives an identifier.
abbrev pcmr_key : GetInfo
pcmr_key = record fingerprint_key { enc_identifier = some (9 ∷ []) }

abbrev record_of : List ℕ → List ℕ → TokenRecord
record_of token identifier = record {
  persistent_token = token;
  protocol = two;
  device_identifier = identifier;
  aaguid = replicate 16 0;
}

abbrev old_store : TokenStore
old_store = ("old", record_of (4 ∷ []) (9 ∷ [])) ∷ ("sibling", record_of (3 ∷ []) (8 ∷ [])) ∷ []

old_store-Distinct : Distinct old_store
old_store-Distinct = (refl, (refl, tt))

-- The old record goes, and the sibling's stays.
minted_among :
    store_minted_token crypto pcmr_key (5 ∷ []) two "new" old_store
    ≡ ok (("new", record_of (5 ∷ []) (9 ∷ [])) ∷ ("sibling", record_of (3 ∷ []) (8 ∷ [])) ∷ [])
unfolding store_minted_token reap_superseded_records delete_superseded put delete
minted_among = refl

store_minted_token-replaces_example :
    (minted_store : TokenStore) × (store_minted_token crypto pcmr_key (5 ∷ []) two "new" old_store
      ≡ ok minted_store)
    × ((key : String)
        → lookup key minted_store ≡ (
            if str_eq "new" key
            then some (minted pcmr_key (5 ∷ []) two (9 ∷ []))
            else kept (9 ∷ []) (lookup key old_store)))
    × Distinct minted_store
store_minted_token-replaces_example =
    store_minted_token-replaces crypto pcmr_key (5 ∷ []) two "new" old_store (9 ∷ []) (9 ∷ []) refl
      refl refl crypto-Lists old_store-Distinct
