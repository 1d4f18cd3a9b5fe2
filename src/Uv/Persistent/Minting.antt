-- ===== src/Uv/Persistent/Minting.antt =====
-- pin/persistent_token.rs: what the store holds after a token is minted.
use libwebauthn.Prelude.{
  ℕ, ◌≡◌, refl, ap, subst, ◌∙◌, Bool, false, Option, none, some, List, [], ◌∷◌, length, bytes_eq,
  if◌then◌else◌, String, str_eq, Bool-cases, inl, inr, ok,
}
use libwebauthn.Uv.Info.{GetInfo}
use libwebauthn.Uv.Token.{PinUvAuthProtocol}
use libwebauthn.Uv.Records.{TokenRecord, TokenStore}
use libwebauthn.Uv.Crypto.{Crypto}
use libwebauthn.Uv.Persistent.{
  put, delete, delete_superseded, reap_superseded_records, store_minted_token,
}
use libwebauthn.Uv.Persistent.Lookup.{
  lookup, Distinct, Lists, same_key, lookup-delete_self, lookup-delete_ne, Distinct-delete,
  lookup-put, Distinct-put,
}

-- What is kept of an entry: it goes when its record is of this device.
abbrev pub kept : List ℕ → Option TokenRecord → Option TokenRecord
kept identifier none = none
kept identifier (some r) = if bytes_eq r.device_identifier identifier then none else some r

-- Whether an entry is one that goes.
abbrev superseded : List ℕ → Option TokenRecord → Bool
superseded identifier none = false
superseded identifier (some r) = bytes_eq r.device_identifier identifier

module _ (identifier : List ℕ) where
  dropped : TokenRecord → String → TokenStore → TokenStore
  dropped r id store = if bytes_eq r.device_identifier identifier then delete id store else store

  lookup-dropped_self :
      (r : TokenRecord) (id : String) (store : TokenStore)
      → lookup id (dropped r id store)
        ≡ (if bytes_eq r.device_identifier identifier then none else lookup id store)
  unfolding dropped
  lookup-dropped_self r id store = elim (Bool-cases (bytes_eq r.device_identifier identifier)) [
    | inl e ↦ rw e (lookup-delete_self id store)
    | inr e ↦ rw e refl
  ]

  lookup-dropped_ne :
      (r : TokenRecord) (id key : String) (store : TokenStore)
      → str_eq id key ≡ false
      → lookup key (dropped r id store) ≡ lookup key store
  unfolding dropped
  lookup-dropped_ne r id key store h = elim (Bool-cases (bytes_eq r.device_identifier identifier)) [
    | inl e ↦ rw e (lookup-delete_ne id key store h)
    | inr e ↦ rw e refl
  ]

  Distinct-dropped :
      (r : TokenRecord) (id : String) (store : TokenStore)
      → Distinct store
      → Distinct (dropped r id store)
  unfolding dropped
  Distinct-dropped r id store h = elim (Bool-cases (bytes_eq r.device_identifier identifier)) [
    | inl e ↦ rw e (Distinct-delete id store h)
    | inr e ↦ rw e h
  ]

  -- The loop takes away the keys that the listing has for this device.
  lookup-delete_superseded :
      (key : String) (listing store : TokenStore)
      → Distinct listing
      → lookup key (delete_superseded identifier listing store)
        ≡ (if superseded identifier (lookup key listing) then none else lookup key store)
  unfolding delete_superseded dropped
  lookup-delete_superseded key [] store h = refl
  lookup-delete_superseded key ((id, r) ∷ listing) store h =
      lookup-delete_superseded key listing (dropped r id store) h.1
      ∙ elim (Bool-cases (str_eq id key)) [
        | inl e ↦
            let missing = subst (λ k. lookup k listing ≡ none) (same_key id key e) h.0 in
            let self =
              subst
                (λ k.
                  lookup k (dropped r id store)
                  ≡ (if bytes_eq r.device_identifier identifier then none else lookup k store))
                (same_key id key e) (lookup-dropped_self r id store) in
            rw (missing, e) self
        | inr e ↦ rw e (
            ap (λ found. if superseded identifier (lookup key listing) then none else found)
              (lookup-dropped_ne r id key store e))
      ]

  Distinct-delete_superseded :
      (listing store : TokenStore)
      → Distinct store
      → Distinct (delete_superseded identifier listing store)
  unfolding delete_superseded dropped
  Distinct-delete_superseded [] store h = h
  Distinct-delete_superseded ((id, r) ∷ listing) store h =
      Distinct-delete_superseded listing (dropped r id store) (Distinct-dropped r id store h)

  kept-superseded :
      (found : Option TokenRecord)
      → (if superseded identifier found then none else found) ≡ kept identifier found
  kept-superseded none = refl
  kept-superseded (some r) = refl

  pub lookup-reap_superseded_records :
      (c : Crypto) (key : String) (store : TokenStore)
      → Lists c
      → Distinct store
      → lookup key (reap_superseded_records c identifier store) ≡ kept identifier (lookup key store)
  unfolding reap_superseded_records
  lookup-reap_superseded_records c key store lists h =
      lookup-delete_superseded key (c.listed store) store (lists.distinct_listed store h)
      ∙ ap (λ found. if superseded identifier found then none else lookup key store)
          (lists.lookup_listed store key h)
      ∙ kept-superseded (lookup key store)

-- The record that is minted.
abbrev pub minted : GetInfo → List ℕ → PinUvAuthProtocol → List ℕ → TokenRecord
minted info token protocol identifier = record {
  persistent_token = token;
  protocol = protocol;
  device_identifier = identifier;
  aaguid = info.aaguid;
}

module _ (c : Crypto) (info : GetInfo) (token : List ℕ) (protocol : PinUvAuthProtocol) (id : String)
    (store : TokenStore) (enc identifier : List ℕ) (has_enc : info.enc_identifier ≡ some enc)
    (decrypts : c.decrypt_identifier token enc ≡ ok identifier)
    (aaguid_len : length info.aaguid ≡ 16) (lists : Lists c) (distinct : Distinct store) where
  -- For a device that gives an identifier which the token decrypts, and an AAGUID of 16 bytes,
  -- minting ends well, in whatever order the store is gone over: under its id stands the new record,
  -- under every other id what stood there, except for the records of this device, which are gone;
  -- and no id stands twice, as none did.
  pub store_minted_token-replaces :
      (minted_store : TokenStore) × (store_minted_token c info token protocol id store
        ≡ ok minted_store)
      × ((key : String)
          → lookup key minted_store ≡ (
              if str_eq id key
              then some (minted info token protocol identifier)
              else kept identifier (lookup key store)))
      × Distinct minted_store
  unfolding store_minted_token reap_superseded_records
  store_minted_token-replaces =
      let reaped = reap_superseded_records c identifier store in
      (
        put id (minted info token protocol identifier) reaped,
        rw (has_enc, store_minted_token, decrypts, aaguid_len) refl,
        (λ key.
            lookup-put id key (minted info token protocol identifier) reaped
            ∙ ap
                (λ found.
                  if str_eq id key then some (minted info token protocol identifier) else found)
                (lookup-reap_superseded_records identifier c key store lists distinct)),
        Distinct-put id (minted info token protocol identifier) reaped
            (Distinct-delete_superseded identifier (c.listed store) store distinct),
      )
