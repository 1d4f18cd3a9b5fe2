-- ===== src/Uv/Persistent/Lookup.antt =====
-- pin/persistent_token.rs: the in-memory store by its lookups, which know nothing of its order.
use libwebauthn.Prelude.{
  ◌≡◌, refl, ap, subst, ◌∙◌, true, false, Option, none, some, [], ◌∷◌, if◌then◌else◌, String,
  str_eq, eq_iff, Bool-cases, inl, inr,
}
use libwebauthn.Uv.Records.{TokenRecord, TokenStore}
use libwebauthn.Uv.Crypto.{Crypto}
use libwebauthn.Uv.Persistent.{delete, put}

-- `HashMap::get`.
abbrev pub lookup : String → TokenStore → Option TokenRecord
lookup key [] = none
lookup key ((id, r) ∷ store) = if str_eq id key then some r else lookup key store

-- No id stands twice.
abbrev pub Distinct : TokenStore → Type 0
Distinct [] = Unit {0}
Distinct ((id, r) ∷ store) = (lookup id store ≡ none) × Distinct store

-- Going over a `HashMap` gives each of its entries once, in some order.
pub record Lists (c : Crypto) : Type 0 where
  pub distinct_listed : (store : TokenStore) → Distinct store → Distinct (c.listed store)
  pub lookup_listed :
      (store : TokenStore) (key : String)
      → Distinct store
      → lookup key (c.listed store) ≡ lookup key store

pub same_key : (id key : String) → str_eq id key ≡ true → id ≡ key
same_key id key e = (eq_iff id key).0 e

pub self_key : (key : String) → str_eq key key ≡ true
self_key key = (eq_iff key key).1 refl

pub other_way : (id key : String) → str_eq key id ≡ false → str_eq id key ≡ false
other_way id key e = elim (Bool-cases (str_eq id key)) [
  | inl same ↦ cc (e, subst (λ k. str_eq k id ≡ true) (same_key id key same) (self_key id))
  | inr differs ↦ differs
]

module _ (key : String) (first : TokenRecord) (listing : TokenStore) where
  pub at_head :
      (id : String) → str_eq key id ≡ true → lookup id ((key, first) ∷ listing) ≡ some first
  at_head id e = rw e refl

  pub behind :
      (id : String) → str_eq key id ≡ false → lookup id ((key, first) ∷ listing) ≡ lookup id listing
  behind id e = rw e refl

pub lookup-delete_self : (id : String) (store : TokenStore) → lookup id (delete id store) ≡ none
unfolding delete
lookup-delete_self id [] = refl
lookup-delete_self id ((key, r) ∷ store) = elim (Bool-cases (str_eq key id)) [
  | inl e ↦ rw (delete, e) (lookup-delete_self id store)
  | inr e ↦ rw (delete, e) (rw e (lookup-delete_self id store))
]

pub lookup-delete_ne :
    (id key : String) (store : TokenStore)
    → str_eq id key ≡ false
    → lookup key (delete id store) ≡ lookup key store
unfolding delete
lookup-delete_ne id key [] h = refl
lookup-delete_ne id key ((other, r) ∷ store) h = elim (Bool-cases (str_eq other id)) [
  | inl e ↦
      let differs = ap (λ k. str_eq k key) (same_key other id e) ∙ h in
      rw (delete, e) (rw differs (lookup-delete_ne id key store h))
  | inr e ↦
      rw (delete, e)
        (ap (λ found. if str_eq other key then some r else found) (lookup-delete_ne id key store h))
]

missing-delete :
    (id key : String) (store : TokenStore)
    → lookup key store ≡ none
    → lookup key (delete id store) ≡ none
missing-delete id key store h = elim (Bool-cases (str_eq id key)) [
  | inl e ↦
      subst (λ k. lookup k (delete id store) ≡ none) (same_key id key e)
        (lookup-delete_self id store)
  | inr e ↦ lookup-delete_ne id key store e ∙ h
]

pub Distinct-delete :
    (id : String) (store : TokenStore) → Distinct store → Distinct (delete id store)
unfolding delete
Distinct-delete id [] h = tt
Distinct-delete id ((key, r) ∷ store) h = elim (Bool-cases (str_eq key id)) [
  | inl e ↦ rw (delete, e) (Distinct-delete id store h.1)
  | inr e ↦ rw (delete, e) (missing-delete id key store h.0, Distinct-delete id store h.1)
]

pub lookup-put :
    (id key : String) (r : TokenRecord) (store : TokenStore)
    → lookup key (put id r store) ≡ (if str_eq id key then some r else lookup key store)
unfolding put
lookup-put id key r store = elim (Bool-cases (str_eq id key)) [
  | inl e ↦ rw e refl
  | inr e ↦ rw e (lookup-delete_ne id key store e)
]

pub Distinct-put :
    (id : String) (r : TokenRecord) (store : TokenStore)
    → Distinct store
    → Distinct (put id r store)
unfolding put
Distinct-put id r store h = (lookup-delete_self id store, Distinct-delete id store h)
