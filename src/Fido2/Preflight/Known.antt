-- ===== src/Fido2/Preflight/Known.antt =====
-- proto/ctap2/preflight.rs: the filtered list has exactly the credentials that the device knows.
use libwebauthn.Prelude.{
  ℕ, ◌≡◌, Bool, true, false, ◌||◌, Option, none, some, List, [], ◌∷◌, ◌++◌, if◌then◌else◌, String,
  Result, ok, err,
}
use libwebauthn.Uv.Errors.{UvError, CommandError, device_error, no_credentials}
use libwebauthn.Uv.World.{World, Call, AssertionReply, get_assertion}

-- A device that knows some credentials under some rpIds, and names none in its responses.
abbrev pub nameless : AssertionReply
nameless = record {
  rp_id_hash = [];
  credential_id = none;
  attested_credential = none;
  credentials_count = none;
}

module _ (known : String → List ℕ → Bool) where
  abbrev pub answer : String → List ℕ → Result CommandError AssertionReply
  answer rp credential =
      if known rp credential then ok nameless else err (device_error no_credentials)

  -- Its answers about one credential: that under the AppID is asked for only after no.
  abbrev pub second_answer :
      String → Option String → List ℕ → List (Result CommandError AssertionReply)
  second_answer rp none credential = []
  second_answer rp (some appid) credential =
      if known rp credential then [] else answer appid credential ∷ []

  abbrev pub transcript :
      String → Option String → List (List ℕ) → List (Result CommandError AssertionReply)
  transcript rp appid [] = []
  transcript rp appid (credential ∷ credentials) =
      answer rp credential ∷ second_answer rp appid credential ++ transcript rp appid credentials

  abbrev pub is_known : String → Option String → List ℕ → Bool
  is_known rp none credential = known rp credential
  is_known rp (some appid) credential = known rp credential || known appid credential

  abbrev pub known_ones : String → Option String → List (List ℕ) → List (List ℕ)
  known_ones rp appid [] = []
  known_ones rp appid (credential ∷ credentials) =
      if is_known rp appid credential
      then credential ∷ known_ones rp appid credentials
      else known_ones rp appid credentials

-- A question: get the assertion of one credential under one rpId, without user presence.
abbrev pub question : String → List ℕ → Call
question rp credential = get_assertion (record {
  relying_party_id = rp;
  allow = credential ∷ [];
  require_user_presence = false;
  pin_auth = none;
})

module _ (known : String → List ℕ → Bool) where
  abbrev pub second_asked : String → Option String → List ℕ → List Call
  second_asked rp none credential = []
  second_asked rp (some appid) credential =
      if known rp credential then [] else question appid credential ∷ []

  -- What such a device is asked, in its order.
  abbrev pub questions : String → Option String → List (List ℕ) → List Call
  questions rp appid [] = []
  questions rp appid (credential ∷ credentials) =
      question rp credential ∷ second_asked rp appid credential ++ questions rp appid credentials

abbrev pub Never : UvError → World → Type 0
Never e w = ⊥

-- The replies that are left, and the calls so far.
abbrev pub Answers : List (Result CommandError AssertionReply) → List Call → World → Type 0
Answers replies calls w = (w.commands ≡ replies) × (w.log ≡ calls)

abbrev if_known : Bool → List ℕ → Option (List ℕ)
if_known true credential = some credential
if_known false credential = none

module _ (known : String → List ℕ → Bool) where
  module _ (rp : String) (appid : Option String) where
    Found :
        List (List ℕ)
        → List (Result CommandError AssertionReply)
        → List Call
        → List (List ℕ)
        → World
        → Type 0
    Found credentials rest calls found w =
        (found ≡ known_ones known rp appid credentials)
        × Answers rest (calls ++ questions known rp appid credentials) w
