-- ===== src/Hints.antt =====
-- libwebauthn/src/ops/webauthn/hints.rs: the relying party's signals, merged into one order of
-- transports.
pub mod Merged
pub mod Tests
use libwebauthn.Prelude.{
  ℕ, Bool, true, false, not, ◌&&◌, ◌||◌, Option, none, some, List, [], ◌∷◌, ◌++◌, ◌==◌,
  if◌then◌else◌, String, str_eq,
}

-- `Ctap2Transport`, as far as the merge tells its values apart.
pub data Transport : Type 0 where
  usb nfc ble smart_card internal hybrid : Transport
  other : String → Transport

-- The derived equality, by the number of the constructor and its text.
abbrev pub tag : Transport → ℕ × String
tag usb = (0, "")
tag nfc = (1, "")
tag ble = (2, "")
tag smart_card = (3, "")
tag internal = (4, "")
tag hybrid = (5, "")
tag (other name) = (6, name)

abbrev pub transport_eq : Transport → Transport → Bool
transport_eq a b = (tag a).0 == (tag b).0 && str_eq (tag a).1 (tag b).1

pub data Hint : Type 0 where
  security_key client_device hybrid_hint unknown_hint : Hint

pub data Attachment : Type 0 where
  platform_attachment cross_platform unknown_attachment : Attachment

abbrev pub hint_of_dom_string : String → Hint
hint_of_dom_string s =
    if str_eq s "security-key"
    then security_key
    else if str_eq s "client-device"
    then client_device
    else if str_eq s "hybrid"
    then hybrid_hint
    else unknown_hint

abbrev pub attachment_of_dom_string : String → Attachment
attachment_of_dom_string s =
    if str_eq s "platform"
    then platform_attachment
    else if str_eq s "cross-platform"
    then cross_platform
    else unknown_attachment

abbrev pub contains : Transport → List Transport → Bool
contains t [] = false
contains t (x ∷ xs) = transport_eq t x || contains t xs

abbrev pub push_one : List Transport → Transport → List Transport
push_one out t = if contains t out then out else out ++ t ∷ []

unfoldable pub push_absent : List Transport → List Transport → List Transport
push_absent out [] = out
push_absent out (t ∷ ts) = push_absent (push_one out t) ts

abbrev pub hinted : Hint → List Transport
hinted security_key = usb ∷ nfc ∷ ble ∷ smart_card ∷ []
hinted client_device = internal ∷ []
hinted hybrid_hint = hybrid ∷ []
hinted unknown_hint = []

unfoldable pub push_hints : List Transport → List Hint → List Transport
unfolding push_absent
push_hints out [] = out
push_hints out (h ∷ hints) = push_hints (push_absent out (hinted h)) hints

abbrev pub attached : Option Attachment → List Transport
attached none = []
attached (some platform_attachment) = internal ∷ []
attached (some cross_platform) = usb ∷ nfc ∷ ble ∷ smart_card ∷ hybrid ∷ []
attached (some unknown_attachment) = []

abbrev pub is_other : Transport → Bool
is_other (other name) = true
is_other _ = false

unfoldable pub push_descriptors : List Transport → List Transport → List Transport
push_descriptors out [] = out
push_descriptors out (t ∷ ts) = push_descriptors (if is_other t then out else push_one out t) ts

abbrev pub same_hint : Hint → Hint → Bool
same_hint security_key security_key = true
same_hint client_device client_device = true
same_hint hybrid_hint hybrid_hint = true
same_hint unknown_hint unknown_hint = true
same_hint _ _ = false

abbrev pub has_hint : Hint → List Hint → Bool
has_hint h [] = false
has_hint h (x ∷ xs) = same_hint h x || has_hint h xs

abbrev pub without_internal : List Transport → List Transport
without_internal [] = []
without_internal (t ∷ ts) =
    let rest = without_internal ts in if transport_eq t internal then rest else t ∷ rest

-- A hybrid hint without one for the client device.
abbrev pub drops_internal : List Hint → Bool
drops_internal hints = has_hint hybrid_hint hints && not (has_hint client_device hints)

unfoldable pub merge_transport_preference :
    List Hint → Option Attachment → List Transport → List Transport
unfolding push_absent push_hints push_descriptors
merge_transport_preference hints attachment descriptor_transports =
    let out =
      push_descriptors (push_absent (push_hints [] hints) (attached attachment))
        descriptor_transports in
    if drops_internal hints then without_internal out else out
