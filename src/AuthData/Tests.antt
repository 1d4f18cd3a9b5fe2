-- ===== src/AuthData/Tests.antt =====
-- Authenticator data with a credential and an extension, and the round trip at it.
use libwebauthn.Prelude.{
  ℕ, suc, ◌≡◌, refl, Option, none, some, List, [], ◌∷◌, replicate, ok, err, arith, ◌++◌,
}
use libwebauthn.AuthData.{
  AuthenticatorData, AttestedCredentialData, Codec, to_response_bytes, visit_bytes, read_exact,
  invalid_length,
}
use libwebauthn.AuthData.RoundTrip.{WellFormed, GoodCredential, visit_bytes-to_response_bytes}

-- A stand-in for CBOR: an item is a byte that counts the bytes behind it, and an extension is one byte.
abbrev counted : List ℕ → Option ℕ
counted [] = none
counted (n ∷ rest) = some (suc n)

abbrev one_byte : List ℕ → Option (Option ℕ × List ℕ)
one_byte [] = none
one_byte (b ∷ rest) = some (some b, rest)

abbrev as_byte : Option ℕ → Option (List ℕ)
as_byte none = none
as_byte (some b) = some (b ∷ [])

abbrev toy : Codec ℕ
toy = record { item_length = counted; decode = one_byte; encode = as_byte }

abbrev credential : AttestedCredentialData
credential = record {
  aaguid = replicate 16 3;
  credential_id = 1 ∷ 2 ∷ 3 ∷ [];
  credential_public_key = 2 ∷ 7 ∷ 7 ∷ [];
}

abbrev registration : AuthenticatorData ℕ
registration = record {
  rp_id_hash = replicate 32 1;
  flags = 0xC5;
  signature_count = 258;
  attested_credential = some credential;
  extensions = some 9;
  raw = none;
}

credential-GoodCredential : GoodCredential toy credential
credential-GoodCredential = record {
  aaguid_16 = refl;
  short_id = omega arith;
  one_item = λ rest. refl;
}

registration-WellFormed : WellFormed toy registration
registration-WellFormed = record {
  hash_32 = refl;
  count_u32 = omega arith;
  credential_fits = (refl, credential-GoodCredential);
  extensions_fit = (refl, (9 ∷ [], refl, refl));
}

visit_bytes-to_response_bytes_example :
    (bytes : List ℕ) × (to_response_bytes toy registration ≡ ok bytes)
    × (visit_bytes toy bytes ≡ ok (record registration { raw = some bytes }))
visit_bytes-to_response_bytes_example =
    visit_bytes-to_response_bytes toy registration registration-WellFormed refl

-- A header alone is too short where the flags promise a credential, and a byte too many is refused.
too_short : visit_bytes toy (replicate 32 1 ++ 0x41 ∷ 0 ∷ 0 ∷ 0 ∷ 5 ∷ []) ≡ err invalid_length
unfolding visit_bytes read_exact
too_short = refl

trailing : visit_bytes toy (replicate 32 1 ++ 0x01 ∷ 0 ∷ 0 ∷ 0 ∷ 5 ∷ 6 ∷ []) ≡ err invalid_length
unfolding visit_bytes read_exact
trailing = refl
