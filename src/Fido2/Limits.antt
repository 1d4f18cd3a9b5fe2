-- ===== src/Fido2/Limits.antt =====
-- webauthn.rs: the limits that getInfo sets for the requests. The size of a serialized request is a
-- parameter: serde_cbor encodes it.
use libwebauthn.Prelude.{
  ℕ, Option, none, some, List, [], ◌∷◌, ltb, leb, if◌then◌else◌, length, Result, ok, err, ◌>>=◌,
}
use libwebauthn.Uv.Errors.{PlatformError, request_too_large}
use libwebauthn.Uv.Info.{GetInfo}

abbrev pub default_max_msg_size : ℕ
default_max_msg_size = 1024

abbrev pub or_default : Option ℕ → ℕ
or_default none = default_max_msg_size
or_default (some size) = if ltb 0 size then size else default_max_msg_size

-- `max_msg_size`: a device that says 0 says nothing.
unfoldable pub max_msg_size_of : GetInfo → ℕ
max_msg_size_of info = or_default info.max_msg_size

abbrev pub retain : ℕ → List (List ℕ) → List (List ℕ)
retain max_len [] = []
retain max_len (id ∷ ids) =
    let rest = retain max_len ids in if leb (length id) max_len then id ∷ rest else rest

unfoldable pub filter_oversized_credentials : GetInfo → List (List ℕ) → List (List ℕ)
filter_oversized_credentials info ids = elim info.max_credential_id_length [
  | none ↦ ids
  | some max_len ↦ retain max_len ids
]

abbrev pub within : ℕ → ℕ → Result PlatformError (Unit {0})
within n max = if ltb max n then err request_too_large else ok tt

abbrev pub within_count : ℕ → Option ℕ → Result PlatformError (Unit {0})
within_count count none = ok tt
within_count count (some max) = within count max

unfoldable pub ensure_credential_count : ℕ → GetInfo → Result PlatformError (Unit {0})
ensure_credential_count count info = within_count count info.max_credential_count

unfoldable pub ensure_msg_size : ℕ → GetInfo → Result PlatformError (Unit {0})
unfolding max_msg_size_of
ensure_msg_size size info = within size (max_msg_size_of info)

-- `enforce_get_assertion_limits`, for the allow list and the size of the request.
unfoldable pub enforce_get_assertion_limits :
    List (List ℕ) → ℕ → GetInfo → Result PlatformError (Unit {0})
unfolding ensure_credential_count ensure_msg_size
enforce_get_assertion_limits allow size info =
    ensure_credential_count (length allow) info >>= λ _. ensure_msg_size size info

-- `enforce_make_credential_limits`: no exclude list counts as an empty one.
abbrev pub count_of : Option (List (List ℕ)) → ℕ
count_of none = 0
count_of (some ids) = length ids

unfoldable pub enforce_make_credential_limits :
    Option (List (List ℕ)) → ℕ → GetInfo → Result PlatformError (Unit {0})
unfolding ensure_credential_count ensure_msg_size
enforce_make_credential_limits exclude size info =
    ensure_credential_count (count_of exclude) info >>= λ _. ensure_msg_size size info
