-- ===== src/AuthData.antt =====
-- libwebauthn/src/fido.rs: authenticator data, as bytes and as a record. The CBOR codec is a parameter.
pub mod RoundTrip
pub mod Tests
use libwebauthn.Prelude.{
  ℕ, ◌+◌, ◌%◌, ◌<◌, ◌≡◌, Bool, true, false, ◌||◌, Option, none, some, List, [], ◌∷◌, ◌++◌, ◌==◌,
  ltb, leb, if◌then◌else◌, length, take, drop, bit_and, u16_be, u32_be, read_u16_be, read_u32_be,
  is_some, Result, ok, err, ◌>>=◌,
}
use libwebauthn.Uv.Errors.{PlatformError, invalid_device_response}

abbrev pub backup_eligibility : ℕ
backup_eligibility = 0x08

abbrev pub backup_state : ℕ
backup_state = 0x10

abbrev pub attested_credentials : ℕ
attested_credentials = 0x40

abbrev pub extension_data : ℕ
extension_data = 0x80

-- `AuthenticatorDataFlags::contains`, for one bit.
abbrev pub has_flag : ℕ → ℕ → Bool
has_flag flags bit = bit_and flags bit == bit

pub record AttestedCredentialData : Type 0 where
  pub aaguid : List ℕ
  pub credential_id : List ℕ
  pub credential_public_key : List ℕ

pub record AuthenticatorData (T : Type 0) : Type 0 where
  pub rp_id_hash : List ℕ
  pub flags : ℕ
  pub signature_count : ℕ
  pub attested_credential : Option AttestedCredentialData
  pub extensions : Option T
  pub raw : Option (List ℕ)

-- serde_cbor: the length of the first item, and the extensions with what follows them.
pub record Codec (T : Type 0) : Type 0 where
  pub item_length : List ℕ → Option ℕ
  pub decode : List ℕ → Option (Option T × List ℕ)
  pub encode : Option T → Option (List ℕ)

pub data ParseError : Type 0 where
  invalid_length failed_to_read cbor_error : ParseError

abbrev pub backup_eligible : {T : Type 0} → AuthenticatorData T → Bool
backup_eligible d = has_flag d.flags backup_eligibility

abbrev pub backed_up : {T : Type 0} → AuthenticatorData T → Bool
backed_up d = has_flag d.flags backup_state

-- The reads of a `Cursor`, which stands at the rest of the bytes.
unfoldable pub read_exact : ℕ → List ℕ → Result ParseError (List ℕ × List ℕ)
read_exact n bytes =
    if leb n (length bytes) then ok (take n bytes, drop n bytes) else err failed_to_read

abbrev pub read_u8 : List ℕ → Result ParseError (ℕ × List ℕ)
read_u8 [] = err failed_to_read
read_u8 (b ∷ rest) = ok (b, rest)

abbrev pub read_u16 : List ℕ → Result ParseError (ℕ × List ℕ)
read_u16 (a ∷ b ∷ rest) = ok (read_u16_be a b, rest)
read_u16 _ = err failed_to_read

abbrev pub read_u32 : List ℕ → Result ParseError (ℕ × List ℕ)
read_u32 (a ∷ b ∷ c ∷ d ∷ rest) = ok (read_u32_be a b c d, rest)
read_u32 _ = err failed_to_read

abbrev pub check_length : ℕ → ℕ → Result ParseError (Unit {0})
check_length len least = if ltb len least then err invalid_length else ok tt

abbrev pub attested_bytes : Option AttestedCredentialData → List ℕ
attested_bytes none = []
attested_bytes (some a) =
    a.aaguid
    ++ u16_be (length a.credential_id % 65536)
    ++ a.credential_id
    ++ a.credential_public_key

module _ {T : Type 0} (codec : Codec T) where
  encoded : Option (List ℕ) → Result PlatformError (List ℕ)
  encoded none = err invalid_device_response
  encoded (some bytes) = ok bytes

  -- The extensions are written where there are any, or where the flag says so.
  pub extension_bytes : AuthenticatorData T → Result PlatformError (List ℕ)
  unfolding encoded
  extension_bytes d =
      if is_some d.extensions || has_flag d.flags extension_data
      then encoded (codec.encode d.extensions)
      else ok []

  pub rebuilt : AuthenticatorData T → Result PlatformError (List ℕ)
  unfolding extension_bytes
  rebuilt d = extension_bytes d >>= λ extensions. ok (
      d.rp_id_hash
      ++ d.flags ∷ u32_be d.signature_count
      ++ attested_bytes d.attested_credential
      ++ extensions)

  -- The device's own bytes where there are any.
  unfoldable pub to_response_bytes : AuthenticatorData T → Result PlatformError (List ℕ)
  unfolding rebuilt
  to_response_bytes d = elim d.raw [ some raw ↦ ok raw | none ↦ rebuilt d ]

  first_item : List ℕ → Option ℕ → Result ParseError (List ℕ × List ℕ)
  first_item bytes none = err cbor_error
  first_item bytes (some n) = read_exact n bytes

  pub parse_attested : ℕ → List ℕ → Result ParseError (AttestedCredentialData × List ℕ)
  unfolding first_item
  parse_attested len bytes = check_length len 55 >>= λ enough.
      read_exact 16 bytes >>= λ (aaguid, at_length). read_u16 at_length >>= λ (n, at_id).
      check_length len (55 + n) >>= λ enough'. read_exact n at_id >>= λ (credential_id, at_key).
      first_item at_key (codec.item_length at_key) >>= λ (key, rest).
      ok (
        record { aaguid = aaguid; credential_id = credential_id; credential_public_key = key },
        rest,
      )

  with_some :
      Result ParseError (AttestedCredentialData × List ℕ)
      → Result ParseError (Option AttestedCredentialData × List ℕ)
  with_some (ok (a, rest)) = ok (some a, rest)
  with_some (err e) = err e

  pub attested_part : ℕ → ℕ → List ℕ → Result ParseError (Option AttestedCredentialData × List ℕ)
  unfolding parse_attested with_some
  attested_part len flags bytes =
      if has_flag flags attested_credentials
      then with_some (parse_attested len bytes)
      else ok (none, bytes)

  decoded : Option (Option T × List ℕ) → Result ParseError (Option T × List ℕ)
  decoded none = err cbor_error
  decoded (some r) = ok r

  pub extension_part : ℕ → List ℕ → Result ParseError (Option T × List ℕ)
  unfolding decoded
  extension_part flags bytes =
      if has_flag flags extension_data then decoded (codec.decode bytes) else ok (none, bytes)

  -- Nothing may follow the extensions.
  abbrev pub no_trailing : List ℕ → Result ParseError (Unit {0})
  no_trailing [] = ok tt
  no_trailing (b ∷ rest) = err invalid_length

  -- `visit_bytes`.
  unfoldable pub visit_bytes : List ℕ → Result ParseError (AuthenticatorData T)
  unfolding attested_part extension_part
  visit_bytes bytes = check_length (length bytes) 37 >>= λ enough.
      read_exact 32 bytes >>= λ (rp_id_hash, at_flags). read_u8 at_flags >>= λ (flags, at_count).
      read_u32 at_count >>= λ (signature_count, at_attested).
      attested_part (length bytes) flags at_attested >>= λ (attested, at_extensions).
      extension_part flags at_extensions >>= λ (extensions, trailing).
      no_trailing trailing >>= λ nothing. ok (record {
        rp_id_hash = rp_id_hash;
        flags = flags;
        signature_count = signature_count;
        attested_credential = attested;
        extensions = extensions;
        raw = some bytes;
      })
