-- ===== src/Uv/Persistent.antt =====
-- pin/persistent_token.rs: how an authenticator is recognized by the record of a persistent token, and
-- how a minted token is stored. The store is the in-memory one.
pub mod Lookup
pub mod Minting
pub mod Recognition
pub mod Tests
use libwebauthn.Prelude.{
  ℕ, Bool, Option, none, some, List, [], ◌∷◌, ◌==◌, if◌then◌else◌, length, bytes_eq, String, str_eq,
  Result, ok, err,
}
use libwebauthn.Uv.Errors.{PlatformError, invalid_device_response}
use libwebauthn.Uv.Info.{GetInfo}
use libwebauthn.Uv.Token.{PinUvAuthProtocol}
use libwebauthn.Uv.Crypto.{Crypto}
use libwebauthn.Uv.Records.{TokenRecord, TokenStore}

-- `HashMap::remove`.
unfoldable pub delete : String → TokenStore → TokenStore
delete id [] = []
delete id ((key, r) ∷ rest) =
    let more = delete id rest in if str_eq key id then more else (key, r) ∷ more

-- `HashMap::insert`. Where the entry stands means nothing: a listing has an order of its own.
unfoldable pub put : String → TokenRecord → TokenStore → TokenStore
unfolding delete
put id r store = (id, r) ∷ delete id store

-- Whether the record's token decrypts the identifier of this device.
unfoldable pub names_device : Crypto → List ℕ → TokenRecord → Bool
names_device c enc r = elim (c.decrypt_identifier r.persistent_token enc) [
  | ok identifier ↦ bytes_eq identifier r.device_identifier
  | err e ↦ Bool.false
]

unfoldable pub find_record : Crypto → List ℕ → TokenStore → Option (String × TokenRecord)
unfolding names_device
find_record c enc [] = none
find_record c enc ((id, r) ∷ rest) =
    if names_device c enc r then some (id, r) else find_record c enc rest

unfoldable pub recognize_authenticator :
    Crypto → GetInfo → TokenStore → Option (String × TokenRecord)
unfolding find_record
recognize_authenticator c info store = elim info.enc_identifier [
  | none ↦ none
  | some enc ↦ find_record c enc (c.listed store)
]

-- The loop over the listing; what is deleted does not change the listing.
unfoldable pub delete_superseded : List ℕ → TokenStore → TokenStore → TokenStore
delete_superseded identifier [] store = store
delete_superseded identifier ((id, r) ∷ listing) store =
    delete_superseded identifier listing
      (if bytes_eq r.device_identifier identifier then delete id store else store)

unfoldable pub reap_superseded_records : Crypto → List ℕ → TokenStore → TokenStore
unfolding delete_superseded
reap_superseded_records c identifier store = delete_superseded identifier (c.listed store) store

-- `id` is the random record id.
unfoldable pub store_minted_token :
    Crypto
    → GetInfo
    → List ℕ
    → PinUvAuthProtocol
    → String
    → TokenStore
    → Result PlatformError TokenStore
unfolding put reap_superseded_records
store_minted_token c info token protocol id store = elim info.enc_identifier [
  | none ↦ err invalid_device_response
  | some enc ↦ elim (c.decrypt_identifier token enc) [
    | err e ↦ err e
    | ok identifier ↦
        if length info.aaguid == 16
        then ok (
            put id
              (record {
                persistent_token = token;
                protocol = protocol;
                device_identifier = identifier;
                aaguid = info.aaguid;
              })
              (reap_superseded_records c identifier store))
        else err invalid_device_response
  ]
]
