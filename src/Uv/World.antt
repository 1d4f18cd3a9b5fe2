-- ===== src/Uv/World.antt =====
-- What a ceremony talks to: the device, the user, the channel's token data and the persistent token
-- store, with the request that it fills in. Replies come from lists; every call is logged.
pub mod Triple
pub mod Budget
pub mod Quiet
use libwebauthn.Prelude.{
  ℕ, Bool, true, Option, none, some, List, [], ◌∷◌, ◌++◌, String, Result, ok, err,
}
use libwebauthn.Uv.Errors.{
  UvError, PlatformError, PinRequestReason, PinNotSetReason, CommandError, device_error,
  transport_error, transport, platform, ctap,
}
use libwebauthn.Uv.Info.{GetInfo}
use libwebauthn.Uv.Token.{PinUvAuthProtocol, AuthTokenData}
use libwebauthn.Uv.Records.{TokenStore}

-- `Ctap2ClientPinRequest`, by its subcommand.
pub data PinRequest : Type 0 where
  get_pin_retries : Option PinUvAuthProtocol → PinRequest
  get_uv_retries : PinRequest
  get_key_agreement : PinUvAuthProtocol → PinRequest
  set_pin : PinUvAuthProtocol → List ℕ → List ℕ → List ℕ → PinRequest
  change_pin : PinUvAuthProtocol → List ℕ → List ℕ → List ℕ → List ℕ → PinRequest
  get_pin_token : PinUvAuthProtocol → List ℕ → List ℕ → PinRequest
  get_pin_token_with_perm : PinUvAuthProtocol → List ℕ → List ℕ → ℕ → Option String → PinRequest
  get_uv_token_with_perm : PinUvAuthProtocol → List ℕ → ℕ → Option String → PinRequest

pub record PinResponse : Type 0 where
  pub key_agreement : Option (List ℕ)
  pub pin_uv_auth_token : Option (List ℕ)
  pub pin_retries : Option ℕ
  pub uv_retries : Option ℕ

-- `Ctap2GetAssertionRequest`, as it is sent, and what the ceremony reads of the response.
pub record AssertionRequest : Type 0 where
  pub relying_party_id : String
  pub allow : List (List ℕ)
  pub require_user_presence : Bool
  pub pin_auth : Option (PinUvAuthProtocol × List ℕ)

pub record AssertionReply : Type 0 where
  pub rp_id_hash : List ℕ
  pub credential_id : Option (List ℕ)
  pub attested_credential : Option (List ℕ)
  pub credentials_count : Option ℕ

pub data Call : Type 0 where
  get_assertion : AssertionRequest → Call
  get_next_assertion dummy_make_credential : Call
  get_info : Call
  client_pin : PinRequest → Call
  pin_required : PinRequestReason → Option ℕ → Call
  pin_not_set : PinNotSetReason → Call
  presence_required : Call
  uv_retry : Option ℕ → Call

-- A request that takes user verification (`Ctap2UserVerifiableRequest`): what it needs as functions
-- of getInfo, and what the ceremony writes into it. `persistent_use` is the decision of
-- `set_persistent_token_use`, given whether there is a store; `auth_error` is the failure of
-- `calculate_and_set_uv_auth`.
pub record UvRequest : Type 0 where
  pub permissions : ℕ
  pub permissions_rpid : Option String
  pub can_use_uv : GetInfo → Bool
  pub needs_shared_secret : GetInfo → Bool
  pub needs_pin_uv_auth_token : GetInfo → Bool
  pub persistent_use : GetInfo → Bool → Bool
  pub auth_error : PinUvAuthProtocol → List ℕ → Option PlatformError
  pub persistent_token_rejected : Bool
  pub preview_of : Option GetInfo
  pub wants_persistent_token : Bool
  pub uv_set : Bool
  pub uv_auth : Option (PinUvAuthProtocol × List ℕ)

-- The replies to come: of getInfo, of clientPIN and of the other commands, and the user's PIN entries
-- (`none` for a dialog that is dismissed), with the random ids of new records.
pub record World : Type 0 where
  pub infos : List (Result UvError GetInfo)
  pub pins : List (Result UvError PinResponse)
  pub entries : List (Option (List ℕ))
  pub commands : List (Result CommandError AssertionReply)
  pub fresh_id : String
  pub auth_data : Option AuthTokenData
  pub store : Option TokenStore
  pub request : UvRequest
  pub log : List Call

-- Code that may fail; the world that it leaves stays whether it fails or not.
abbrev pub Ceremony : Type 0 → Type 0
Ceremony A = World → Result UvError A × World

abbrev pub resume :
    {A B : Type 0} → Result UvError A × World → (A → Ceremony B) → Result UvError B × World
resume (ok a, w) f = f a w
resume (err e, w) f = (err e, w)

infixl 5 ◌>>=◌ ◌>>◌
unfoldable pub ◌>>=◌ : {A B : Type 0} → Ceremony A → (A → Ceremony B) → Ceremony B
◌>>=◌ m f w = resume (m w) f

unfoldable pub ◌>>◌ : {A B : Type 0} → Ceremony A → Ceremony B → Ceremony B
unfolding ◌>>=◌
m >> k = m >>= λ _. k

abbrev pub pure : {A : Type 0} → A → Ceremony A
pure a w = (ok a, w)

abbrev pub raise : {A : Type 0} → UvError → Ceremony A
raise e w = (err e, w)

abbrev pub attempt : {A : Type 0} → Ceremony A → Ceremony (Result UvError A)
attempt m w = let (r, w') = m w in (ok r, w')

abbrev pub of_platform : {A : Type 0} → Result PlatformError A → Result UvError A
of_platform (ok a) = ok a
of_platform (err e) = err (platform e)

abbrev pub lift : {A : Type 0} → Result UvError A → Ceremony A
lift r w = (r, w)

abbrev pub world : Ceremony World
world w = (ok w, w)

abbrev pub note : Call → Ceremony (Unit {0})
note c w = (ok tt, record w { log = w.log ++ c ∷ [] })

-- `ctap2_get_info` and `ctap2_client_pin`; a device that says nothing more is a transport error.
unfoldable pub ctap2_get_info : Ceremony GetInfo
ctap2_get_info w =
    let w' = record w { log = w.log ++ get_info ∷ [] } in
    elim w.infos [ [] ↦ (err transport, w') | reply ∷ rest ↦ (reply, record w' { infos = rest }) ]

unfoldable pub ctap2_client_pin : PinRequest → Ceremony PinResponse
ctap2_client_pin request w =
    let w' = record w { log = w.log ++ client_pin request ∷ [] } in
    elim w.pins [ [] ↦ (err transport, w') | reply ∷ rest ↦ (reply, record w' { pins = rest }) ]

abbrev pub of_command : {A : Type 0} → Result CommandError A → Result UvError A
of_command (ok a) = ok a
of_command (err (device_error e)) = err (ctap e)
of_command (err transport_error) = err transport

-- A command other than those: `ctap2_get_assertion`, `ctap2_get_next_assertion` and
-- `ctap2_make_credential`, by the call that is logged.
unfoldable pub send_command : Call → Ceremony AssertionReply
send_command call w =
    let w' = record w { log = w.log ++ call ∷ [] } in
    elim w.commands [
      | [] ↦ (err transport, w')
      | reply ∷ rest ↦ (of_command reply, record w' { commands = rest })
    ]

-- A PIN dialog: the update that asks for it is `call`, and `none` is a user who goes away.
unfoldable pub ask_pin : Call → Ceremony (Option (List ℕ))
ask_pin call w =
    let w' = record w { log = w.log ++ call ∷ [] } in
    elim w.entries [ [] ↦ (ok none, w') | entry ∷ rest ↦ (ok entry, record w' { entries = rest }) ]

unfoldable pub store_auth_data : AuthTokenData → Ceremony (Unit {0})
store_auth_data auth_token_data w = (ok tt, record w { auth_data = some auth_token_data })

-- `calculate_and_set_uv_auth`.
unfoldable pub calculate_and_set_uv_auth : PinUvAuthProtocol → List ℕ → Ceremony (Unit {0})
calculate_and_set_uv_auth proto token w = elim (w.request.auth_error proto token) [
  | some e ↦ (err (platform e), w)
  | none ↦ (ok tt, record w { request = record w.request { uv_auth = some (proto, token) } })
]

unfoldable pub ensure_uv_set : Ceremony (Unit {0})
ensure_uv_set w = (ok tt, record w { request = record w.request { uv_set = true } })
