-- ===== src/Ble/Connection/Keepalive.antt =====
-- transport/ble/btleplug/connection.rs: keep-alive frames before the reply.
use libwebauthn.Prelude.{
  ℕ, ◌<◌, ◌≡◌, ◌∙◌, List, [], ◌∷◌, ◌++◌, map, append_assoc, length, All, Result, ok, ◌>>=◌,
  ok_of_bind,
}
use mathlib.Core.List.{map-append}
use libwebauthn.Ble.Frame.{BleFrame, FramingError, keepalive, msg}
use libwebauthn.Ble.Fragments.{fragments}
use libwebauthn.Ble.Parser.{new}
use libwebauthn.Ble.Connection.{RecvEvent, notification, finished, frame_recv}
use libwebauthn.Ble.Connection.RoundTrip.{recv-fragments, on_frame_msg, on_frame_keepalive}

-- The fragments of some frames, one frame after the other.
abbrev pub all_fragments : List BleFrame → ℕ → Result FramingError (List (List ℕ))
all_fragments [] size = ok []
all_fragments (f ∷ fs) size =
    fragments f size >>= λ first. all_fragments fs size >>= λ rest. ok (first ++ rest)

abbrev pub IsKeepalive : BleFrame → Type 0
IsKeepalive f = (f.cmd ≡ keepalive) × (length f.content < 65536)

-- A reply of at most 65535 bytes is received as it was sent, behind any number of keep-alive frames,
-- for every supported fragment length, and what follows it is left over.
pub recv-after_keepalives :
    (ks : List BleFrame) (f : BleFrame) (size : ℕ) (parts fs : List (List ℕ))
    (events : List RecvEvent)
    → All IsKeepalive ks
    → f.cmd ≡ msg
    → length f.content < 65536
    → all_fragments ks size ≡ ok parts
    → fragments f size ≡ ok fs
    → frame_recv new (map notification parts ++ (map notification fs ++ events))
      ≡ finished (ok f) events
recv-after_keepalives [] f size parts fs events hk hm short hp hf =
    let e : parts ≡ [] = cc in
    rw e (recv-fragments f size fs events short hf ∙ on_frame_msg f fs events hm)
recv-after_keepalives (k ∷ ks) f size parts fs events hk hm short hp hf =
    let (first, p, q) = ok_of_bind _ (fragments k size) hp in
    let (rest, r, s) = ok_of_bind _ (all_fragments ks size) q in
    let e : parts ≡ first ++ rest = cc in
    let more : List RecvEvent = map notification rest ++ (map notification fs ++ events) in
    rw (e, map-append, append_assoc)
      (recv-fragments k size first more hk.0.1 p
        ∙ on_frame_keepalive k first more hk.0.0
        ∙ recv-after_keepalives ks f size rest fs events hk.1 hm short r hf)
