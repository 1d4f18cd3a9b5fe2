-- ===== src/AuthData/RoundTrip.antt =====
-- fido.rs: what `to_response_bytes` writes from the fields, `visit_bytes` reads back.
use libwebauthn.Prelude.{
  ℕ, ◌+◌, ◌*◌, ◌/◌, ◌%◌, ◌^◌, ◌≤◌, ◌<◌, ◌≡◌, refl, subst, ◌∙◌, true, false, Option, none, some,
  List, [], ◌∷◌, ◌++◌, append_assoc, length, take_append, drop_append, length-append, IsU32, u16_be,
  read_u32_be-u32_be, Result, ok, arith,
}
use libwebauthn.Uv.Errors.{PlatformError}
use libwebauthn.AuthData.{
  AuthenticatorData, AttestedCredentialData, Codec, attested_credentials, extension_data, has_flag,
  read_exact, attested_bytes, check_length, extension_bytes, rebuilt, to_response_bytes, first_item,
  parse_attested, with_some, attested_part, decoded, encoded, extension_part, visit_bytes,
}

-- A credential of the sizes that the layout has, whose key is one CBOR item wherever it stands.
pub record GoodCredential {T : Type 0} (codec : Codec T) (a : AttestedCredentialData) : Type 0 where
  pub aaguid_16 : length a.aaguid ≡ 16
  pub short_id : length a.credential_id < 65536
  pub one_item :
      (rest : List ℕ)
      → codec.item_length (a.credential_public_key ++ rest) ≡ some (length a.credential_public_key)

-- The flag says whether there is a credential.
abbrev pub CredentialFits : {T : Type 0} → Codec T → ℕ → Option AttestedCredentialData → Type 0
CredentialFits codec flags none = has_flag flags attested_credentials ≡ false
CredentialFits codec flags (some a) =
    (has_flag flags attested_credentials ≡ true) × GoodCredential codec a

-- The flag says whether there are extensions, and they decode as they were encoded.
abbrev pub ExtensionsFit : {T : Type 0} → Codec T → ℕ → Option T → Type 0
ExtensionsFit codec flags none = has_flag flags extension_data ≡ false
ExtensionsFit codec flags (some t) =
    (has_flag flags extension_data ≡ true)
    × ((bytes : List ℕ) × (codec.encode (some t) ≡ some bytes)
        × (codec.decode bytes ≡ some (some t, [])))

pub record WellFormed {T : Type 0} (codec : Codec T) (d : AuthenticatorData T) : Type 0 where
  pub hash_32 : length d.rp_id_hash ≡ 32
  pub count_u32 : IsU32 d.signature_count
  pub credential_fits : CredentialFits codec d.flags d.attested_credential
  pub extensions_fit : ExtensionsFit codec d.flags d.extensions

check_ok : (len least : ℕ) → least ≤ len → check_length len least ≡ ok tt
check_ok len least h = ground arith

read_exact_append : (n : ℕ) (xs ys : List ℕ) → length xs ≡ n → read_exact n (xs ++ ys) ≡ ok (xs, ys)
unfolding read_exact
read_exact_append n xs ys h =
    subst (λ m. read_exact m (xs ++ ys) ≡ ok (xs, ys)) h
      (ground (arith, take_append xs ys, drop_append xs ys, length-append xs ys))

module _ {T : Type 0} (codec : Codec T) where
  parsed_credential :
      (a : AttestedCredentialData) (len : ℕ) (rest : List ℕ)
      → GoodCredential codec a
      → 55 + length a.credential_id ≤ len
      → parse_attested codec len (
          a.aaguid
          ++ ((length a.credential_id % 65536 / 256 % 256)
              ∷ ((length a.credential_id % 65536 % 256)
                  ∷ (a.credential_id ++ (a.credential_public_key ++ rest)))))
        ≡ ok (a, rest)
  unfolding parse_attested first_item
  parsed_credential a len rest good enough =
      rw
        (
          check_ok len 55 (omega (arith, enough)),
          read_exact_append 16 a.aaguid
              ((length a.credential_id % 65536 / 256 % 256)
                ∷ ((length a.credential_id % 65536 % 256)
                    ∷ (a.credential_id ++ (a.credential_public_key ++ rest))))
              good.aaguid_16,
          id_length (length a.credential_id) good.short_id,
          check_ok len (55 + length a.credential_id) enough,
          read_exact_append (length a.credential_id) a.credential_id
              (a.credential_public_key ++ rest) refl,
          good.one_item rest,
          read_exact_append (length a.credential_public_key) a.credential_public_key rest refl,
        )
        refl
    where
      id_length : (n : ℕ) → n < 65536 → n % 65536 / 256 % 256 * 256 + n % 65536 % 256 ≡ n
      id_length n h = omega arith

  attested_whole :
      (a : AttestedCredentialData) (rest : List ℕ)
      → attested_bytes (some a) ++ rest
        ≡ a.aaguid
          ++ ((length a.credential_id % 65536 / 256 % 256)
              ∷ ((length a.credential_id % 65536 % 256)
                  ∷ (a.credential_id ++ (a.credential_public_key ++ rest))))
  attested_whole a rest = simp append_assoc

  length-attested :
      (a : AttestedCredentialData)
      → GoodCredential codec a
      → 18 + length a.credential_id ≤ length (attested_bytes (some a))
  length-attested a good = ground (
    arith,
    good.aaguid_16,
    length-append (a.aaguid ++ u16_be (length a.credential_id % 65536) ++ a.credential_id)
        a.credential_public_key,
    length-append (a.aaguid ++ u16_be (length a.credential_id % 65536)) a.credential_id,
    length-append a.aaguid (u16_be (length a.credential_id % 65536)),
  )

  attested_read :
      (flags len : ℕ) (a : Option AttestedCredentialData) (rest : List ℕ)
      → CredentialFits codec flags a
      → 37 + length (attested_bytes a) ≤ len
      → attested_part codec len flags (attested_bytes a ++ rest) ≡ ok (a, rest)
  unfolding attested_part with_some
  attested_read flags len none rest off enough = rw off refl
  attested_read flags len (some a) rest (on, good) enough =
      rw
        (
          attested_whole a rest,
          on,
          parsed_credential a len rest good (omega (arith, length-attested a good)),
        )
        refl

  extensions_read :
      (d : AuthenticatorData T)
      → ExtensionsFit codec d.flags d.extensions
      → (bytes : List ℕ) × (extension_bytes codec d ≡ ok bytes)
        × (extension_part codec d.flags bytes ≡ ok (d.extensions, []))
  unfolding extension_bytes extension_part decoded encoded
  extensions_read d fit = go d.extensions refl fit
    where
      go :
          (e : Option T)
          → d.extensions ≡ e
          → ExtensionsFit codec d.flags e
          → (bytes : List ℕ) × (extension_bytes codec d ≡ ok bytes)
            × (extension_part codec d.flags bytes ≡ ok (d.extensions, []))
      go none same off = ([], rw (same, off) refl, rw (same, off) refl)
      go (some t) same (on, (bytes, enc, dec)) =
          (bytes, rw (same, enc) refl, rw (same, on, dec) refl)

  -- The bytes with a rest behind the counter.
  abbrev laid_out : AuthenticatorData T → List ℕ → List ℕ
  laid_out d rest =
      d.rp_id_hash
      ++ (d.flags
          ∷ (d.signature_count / 2 ^ 24 % 256)
          ∷ (d.signature_count / 2 ^ 16 % 256)
          ∷ (d.signature_count / 256 % 256)
          ∷ (d.signature_count % 256)
          ∷ rest)

  length-laid_out :
      (d : AuthenticatorData T) (rest : List ℕ)
      → length d.rp_id_hash ≡ 32
      → length (laid_out d rest) ≡ 37 + length rest
  length-laid_out d rest h = ground (
    arith,
    h,
    length-append d.rp_id_hash (
        d.flags
        ∷ (d.signature_count / 2 ^ 24 % 256)
        ∷ (d.signature_count / 2 ^ 16 % 256)
        ∷ (d.signature_count / 256 % 256)
        ∷ (d.signature_count % 256)
        ∷ rest),
  )

  rebuilt-laid_out :
      (d : AuthenticatorData T) (extensions : List ℕ)
      → extension_bytes codec d ≡ ok extensions
      → rebuilt codec d ≡ ok (laid_out d (attested_bytes d.attested_credential ++ extensions))
  unfolding rebuilt
  rebuilt-laid_out d extensions written = rw written (simp append_assoc)

  laid_out-read :
      (d : AuthenticatorData T) (extensions : List ℕ)
      → WellFormed codec d
      → extension_part codec d.flags extensions ≡ ok (d.extensions, [])
      → visit_bytes codec (laid_out d (attested_bytes d.attested_credential ++ extensions))
        ≡ ok (record d {
          raw = some (laid_out d (attested_bytes d.attested_credential ++ extensions));
        })
  unfolding visit_bytes
  laid_out-read d extensions good back =
      let rest = attested_bytes d.attested_credential ++ extensions in
      let len = length-laid_out d rest good.hash_32 in
      rw
        (
          check_ok (length (laid_out d rest)) 37 (omega (arith, len)),
          read_exact_append 32 d.rp_id_hash _ good.hash_32,
          read_u32_be-u32_be d.signature_count good.count_u32,
          attested_read d.flags (length (laid_out d rest)) d.attested_credential extensions
              good.credential_fits
              (omega (arith, len, length-append (attested_bytes d.attested_credential) extensions)),
          back,
        )
        refl

  -- Authenticator data whose fields have the sizes of the layout, and whose flags say what is there, is
  -- read back from the bytes that are written from the fields: every field returns, and nothing is
  -- left over. The bytes themselves are kept beside the fields.
  pub visit_bytes-to_response_bytes :
      (d : AuthenticatorData T)
      → WellFormed codec d
      → d.raw ≡ none
      → (bytes : List ℕ) × (to_response_bytes codec d ≡ ok bytes)
        × (visit_bytes codec bytes ≡ ok (record d { raw = some bytes }))
  unfolding to_response_bytes
  visit_bytes-to_response_bytes d good fresh =
      let (extensions, written, back) = extensions_read d good.extensions_fit in
      (
        laid_out d (attested_bytes d.attested_credential ++ extensions),
        to_rebuilt d.raw fresh ∙ rebuilt-laid_out d extensions written,
        laid_out-read d extensions good back,
      )
    where
      to_rebuilt :
          (raw : Option (List ℕ))
          → raw ≡ none
          → elim raw as (λ r. Result PlatformError (List ℕ)) [
            | some bytes ↦ ok bytes
            | none ↦ rebuilt codec d
          ]
            ≡ rebuilt codec d
      to_rebuilt none e = refl
      to_rebuilt (some bytes) e = cc
