-- ===== src/Hints/Tests.antt =====
-- A registration that prefers a phone, and the theorems at it.
use libwebauthn.Prelude.{◌≡◌, refl, true, not, ◌&&◌, ◌||◌, some, List, [], ◌∷◌}
use libwebauthn.Hints.{
  Transport, usb, nfc, ble, smart_card, internal, hybrid, other, Hint, security_key, hybrid_hint,
  platform_attachment, contains, attached, is_other, transport_eq, drops_internal, push_absent,
  push_hints, push_descriptors, merge_transport_preference,
}
use libwebauthn.Hints.Merged.{
  mentioned, distinct, contains-merge_transport_preference, distinct-merge_transport_preference,
}

abbrev phone_first : List Hint
phone_first = hybrid_hint ∷ security_key ∷ []

abbrev named : List Transport
named = internal ∷ other "lora" ∷ usb ∷ []

-- The attachment and the credential put the internal transport back, and it is dropped.
merged :
    merge_transport_preference phone_first (some platform_attachment) named
    ≡ hybrid ∷ usb ∷ nfc ∷ ble ∷ smart_card ∷ []
unfolding merge_transport_preference push_absent push_hints push_descriptors
merged = refl

contains-merge_transport_preference_example :
    contains internal (merge_transport_preference phone_first (some platform_attachment) named) ≡ (
      (mentioned internal phone_first
        || contains internal (attached (some platform_attachment))
        || not (is_other internal) && contains internal named)
      && not (drops_internal phone_first && transport_eq internal internal))
contains-merge_transport_preference_example =
    contains-merge_transport_preference phone_first (some platform_attachment) named internal

distinct-merge_transport_preference_example :
    distinct (merge_transport_preference phone_first (some platform_attachment) named) ≡ true
distinct-merge_transport_preference_example =
    distinct-merge_transport_preference phone_first (some platform_attachment) named
