-- ===== src/Uv/Pin/Keeps.antt =====
-- webauthn/pin_uv_auth_token.rs: the calls of the device and the user leave the request as it is.
use libwebauthn.Prelude.{Option-cases, inl, inr}
use libwebauthn.Uv.Errors.{PinRequestReason}
use libwebauthn.Uv.Crypto.{Crypto}
use libwebauthn.Uv.Info.{GetInfo}
use libwebauthn.Uv.Token.{PinUvAuthProtocol}
use libwebauthn.Uv.World.{UvRequest, get_key_agreement}
use libwebauthn.Uv.World.Triple.{
  Triple-bind, Triple-raise, Triple-pure, Keeps, Keeps-lift, Keeps-client_pin, Keeps-attempt,
  Keeps-ask_pin, request-client_pin,
}
use libwebauthn.Uv.Pin.{obtain_shared_secret, obtain_pin}

module _ (c : Crypto) (F : UvRequest → Type 0) where
  pub Keeps-obtain_shared_secret :
      (proto : PinUvAuthProtocol) → Keeps F (obtain_shared_secret c proto)
  unfolding obtain_shared_secret
  Keeps-obtain_shared_secret proto =
      Triple-bind (λ a w. F w.request) (Keeps-client_pin F (get_key_agreement proto))
        (λ r. elim (Option-cases r.key_agreement) [
          | inl e ↦ rw e Triple-raise
          | inr (key, e) ↦ rw e (Keeps-lift F _)
        ])

  pub Keeps-obtain_pin :
      (info : GetInfo) (proto : PinUvAuthProtocol) (reason : PinRequestReason)
      → Keeps F (obtain_pin c info proto reason)
  unfolding obtain_pin
  Keeps-obtain_pin info proto reason =
      Triple-bind (λ a w. F w.request) (Keeps-attempt F _ (request-client_pin _))
        (λ reply.
          Triple-bind (λ a w. F w.request) (Keeps-ask_pin F _)
            (λ entry. elim (Option-cases entry) [
              | inl e ↦ rw e Triple-raise
              | inr (pin, e) ↦ rw e (Triple-pure (λ w p. p))
            ]))
