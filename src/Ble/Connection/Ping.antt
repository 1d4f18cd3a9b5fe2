-- ===== src/Ble/Connection/Ping.antt =====
-- transport/ble/btleplug/connection.rs: `frame_recv` does not reset its parser behind a Ping frame.
use libwebauthn.Prelude.{ℕ, ◌<◌, ◌≡◌, refl, ◌∙◌, List, [], ◌∷◌, ◌++◌, map, length, All, ok, arith}
use libwebauthn.Ble.Frame.{BleFrame, ping}
use libwebauthn.Ble.Fragments.{fragments}
use libwebauthn.Ble.Parser.{BleFrameParser, new, frame}
use libwebauthn.Ble.Parser.Steps.{update_done_any, frame-snoc}
use libwebauthn.Ble.Connection.{notification, waiting, frame_recv}
use libwebauthn.Ble.Connection.RoundTrip.{recv-fragments, on_frame_ping, frame-fragments}

-- A parser that holds a whole Ping frame takes every later fragment as more of that frame.
stuck_on_ping :
    (q : BleFrameParser) (f : BleFrame) (later : List (List ℕ))
    → frame q ≡ ok f
    → f.cmd ≡ ping
    → All (λ g. 0 < length g) later
    → frame_recv q (map notification later) ≡ waiting
unfolding frame_recv
stuck_on_ping q f [] h p a = refl
stuck_on_ping q f (g ∷ gs) h p a =
    let (f', same, e) = frame-snoc q f g h in
    let rec = stuck_on_ping (record { fragments = q.fragments ++ g ∷ [] }) f' gs e (same ∙ p) a.1 in
    ground (arith, update_done_any q f g h, rec)

-- Once a Ping frame has come in, no sequence of nonempty fragments, a whole reply included, makes
-- `frame_recv` return: it waits until the stream ends or the timeout passes.
pub ping-swallows :
    (f : BleFrame) (size : ℕ) (fs later : List (List ℕ))
    → f.cmd ≡ ping
    → length f.content < 65536
    → fragments f size ≡ ok fs
    → All (λ g. 0 < length g) later
    → frame_recv new (map notification fs ++ map notification later) ≡ waiting
ping-swallows f size fs later p short h a =
    recv-fragments f size fs (map notification later) short h
    ∙ on_frame_ping f _ (map notification later) p
    ∙ stuck_on_ping (record { fragments = fs }) f later (frame-fragments f size fs short h) p a
