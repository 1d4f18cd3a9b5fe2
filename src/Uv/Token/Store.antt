-- ===== src/Uv/Token/Store.antt =====
-- transport/channel.rs: for which requests `get_uv_auth_token` gives the token that is kept.
use Prim.Native.Nat.{digits, min, bit_and-bitwise}
use libwebauthn.Prelude.{
  ℕ, zero, suc, ◌/◌, ◌%◌, ◌≤◌, bit_and, ◌≡◌, ◌↔◌, refl, ◌∙◌, true, Option, none, some, List, String,
  eq_iff, arith, Bool-cases, Option-cases, inl, inr,
}
use libwebauthn.Uv.Token.{
  PinUvAuthProtocol, one, two, protocol_eq, rpid_eq, role_contains, AuthTokenPermission,
  AuthTokenData, contains, get_uv_auth_token,
}

min_self : (a : ℕ) → min a a ≡ a
min_self a = omega arith

digits_self : (n a : ℕ) → a ≤ n → digits (λ b. zero) min n a a ≡ a
digits_self zero zero h = refl
digits_self (suc n) zero h = refl
digits_self zero (suc a) h = omega arith
digits_self (suc n) (suc a) h = ground (arith, min_self (suc a % 2), digits_self n (suc a / 2))

bit_and_self : (a : ℕ) → bit_and a a ≡ a
bit_and_self a = bit_and-bitwise a a ∙ digits_self a a (omega arith)

protocol_eq-≡ : (a b : PinUvAuthProtocol) → protocol_eq a b ≡ true ↔ a ≡ b
protocol_eq-≡ one one = ground arith
protocol_eq-≡ one two = ground arith
protocol_eq-≡ two one = ground arith
protocol_eq-≡ two two = ground arith

rpid_eq-≡ : (a b : Option String) → rpid_eq a b ≡ true ↔ a ≡ b
rpid_eq-≡ none none = ground arith
rpid_eq-≡ none (some b) = ground arith
rpid_eq-≡ (some a) none = ground arith
rpid_eq-≡ (some a) (some b) = ground (arith, eq_iff a b)

-- What a permission must agree in to serve a request.
pub record Serves (permission requested : AuthTokenPermission) : Type 0 where
  pub same_protocol : permission.pin_uv_auth_protocol ≡ requested.pin_uv_auth_protocol
  pub same_rpid : permission.rpid ≡ requested.rpid
  pub covers_role : bit_and permission.role requested.role ≡ requested.role

pub contains-Serves :
    (permission requested : AuthTokenPermission)
    → contains permission requested ≡ true ↔ Serves permission requested
unfolding contains role_contains
contains-Serves p r = (
  λ h. record {
    same_protocol = ground (arith, protocol_eq-≡ p.pin_uv_auth_protocol r.pin_uv_auth_protocol);
    same_rpid = ground (arith, rpid_eq-≡ p.rpid r.rpid);
    covers_role = ground arith;
  },
  λ s. ground (
    arith,
    protocol_eq-≡ p.pin_uv_auth_protocol r.pin_uv_auth_protocol,
    rpid_eq-≡ p.rpid r.rpid,
    s.same_protocol,
    s.same_rpid,
    s.covers_role,
  ),
)

-- The token that is kept is given out exactly to the requests that its permission serves: those with
-- its protocol and its rpId, whose roles it covers. Data without a permission gives out nothing.
pub get_uv_auth_token-Serves :
    (kept : AuthTokenData) (requested : AuthTokenPermission) (token : List ℕ)
    → get_uv_auth_token (some kept) requested ≡ some token ↔ (
        (p : AuthTokenPermission) × (kept.permission ≡ some p)
        × Serves p requested
        × (kept.pin_uv_auth_token ≡ some token))
unfolding get_uv_auth_token
get_uv_auth_token-Serves kept requested token = (
  λ h. elim (Option-cases kept.permission) [
    | inl e ↦ ground arith
    | inr (p, e) ↦ elim (Bool-cases (contains p requested)) [
      | inl c ↦ (p, e, (contains-Serves p requested).0 c, ground arith)
      | inr c ↦ ground arith
    ]
  ],
  λ (p, e, serves, t). rw (e, (contains-Serves p requested).1 serves) t,
)

-- A permission serves itself.
pub contains_self : (p : AuthTokenPermission) → contains p p ≡ true
contains_self p =
    (contains-Serves p p).1
      (record { same_protocol = refl; same_rpid = refl; covers_role = bit_and_self p.role })
