-- ===== src/Fido2/Preflight.antt =====
-- proto/ctap2/preflight.rs: which of the credentials a device has, asked one at a time and without
-- user presence. A credential is its id.
pub mod Known
use libwebauthn.Prelude.{ℕ, Bool, false, Option, none, some, List, [], ◌∷◌, String, Result, ok, err}
use libwebauthn.Uv.Errors.{UvError, ctap, no_credentials}
use libwebauthn.Uv.World.{
  Ceremony, AssertionRequest, AssertionReply, pure, raise, attempt, ◌>>=◌, ◌>>◌, send_command,
  get_assertion,
}

-- The id of the credential that was found: in the response, in the attested credential, or the one
-- that was asked for.
abbrev pub id_or : Option (List ℕ) → List ℕ → List ℕ
id_or none other = other
id_or (some id) other = id

abbrev pub found_id : AssertionReply → List ℕ → List ℕ
found_id reply credential = id_or reply.credential_id (id_or reply.attested_credential credential)

abbrev pub preflight_request : List ℕ → String → AssertionRequest
preflight_request credential rp = record {
  relying_party_id = rp;
  allow = credential ∷ [];
  require_user_presence = false;
  pin_auth = none;
}

judge : List ℕ → Result UvError AssertionReply → Ceremony (Option (List ℕ))
judge credential (ok reply) = pure (some (found_id reply credential))
judge credential (err (ctap no_credentials)) = pure none
judge credential (err e) = raise e

unfoldable pub preflight_one : List ℕ → String → Ceremony (Option (List ℕ))
unfolding judge
preflight_one credential rp = do
  reply ← attempt (send_command (get_assertion (preflight_request credential rp)))
  judge credential reply

-- The second question, under the legacy AppID, where there is one.
under_appid : List ℕ → Option String → Ceremony (Option (List ℕ))
under_appid credential none = pure none
under_appid credential (some appid) = preflight_one credential appid

first_or_appid : List ℕ → Option String → Option (List ℕ) → Ceremony (Option (List ℕ))
unfolding under_appid
first_or_appid credential appid (some matched) = pure (some matched)
first_or_appid credential appid none = under_appid credential appid

abbrev pub push_found : Option (List ℕ) → List (List ℕ) → List (List ℕ)
push_found none rest = rest
push_found (some id) rest = id ∷ rest

-- `ctap2_preflight_with_appid`; the filtered list is built from its end here.
unfoldable pub preflight_with_appid :
    List (List ℕ) → String → Option String → Ceremony (List (List ℕ))
unfolding first_or_appid
preflight_with_appid [] rp appid = pure []
preflight_with_appid (credential ∷ credentials) rp appid = do
  under_rp ← preflight_one credential rp
  found ← first_or_appid credential appid under_rp
  rest ← preflight_with_appid credentials rp appid
  pure (push_found found rest)

-- `ctap2_preflight`.
unfoldable pub preflight : List (List ℕ) → String → Ceremony (List (List ℕ))
preflight credentials rp = preflight_with_appid credentials rp none
