-- ===== src/Uv/World/Budget.antt =====
-- How many replies and PIN entries are left: no call adds any, and no reply of the device is the
-- error that stands for a loop without fuel.
use libwebauthn.Prelude.{
  ℕ, ◌+◌, ◌-◌, ◌≤◌, ◌<◌, ◌≡◌, ◌≢◌, ap, subst, true, Option, List, length, All, List-cases, inl, inr,
  is_some, Result, ok, err, arith,
}
use libwebauthn.Uv.Errors.{UvError, transport, out_of_rounds}
use libwebauthn.Uv.World.{World, Call, PinRequest, ctap2_get_info, ctap2_client_pin, ask_pin}
use libwebauthn.Uv.World.Triple.{Spec, triple, Ends}

abbrev pub Told : {A : Type 0} → Result UvError A → Type 0
Told {A} r = r ≢ err out_of_rounds

pub record Fits (calls entries : ℕ) (w : World) : Type 0 where
  pub infos_told : All Told w.infos
  pub pins_told : All Told w.pins
  pub calls_left : length w.infos + length w.pins ≤ calls
  pub entries_left : length w.entries ≤ entries

abbrev pub Fine : ℕ → ℕ → UvError → World → Type 0
Fine calls entries e w = (e ≢ out_of_rounds) × Fits calls entries w

-- A reply of the device is used up.
abbrev pub Spent : ℕ → ℕ → World → Type 0
Spent calls entries w = (0 < calls) × Fits (calls - 1) entries w

pub Fits-weaken : (k n k' n' : ℕ) (w : World) → k ≤ k' → n ≤ n' → Fits k n w → Fits k' n' w
Fits-weaken k n k' n' w h g f = record {
  infos_told = f.infos_told;
  pins_told = f.pins_told;
  calls_left = omega (arith, f.calls_left);
  entries_left = omega (arith, f.entries_left);
}

pub Told-err : {A : Type 0} (e : UvError) → Told {A = A} (err e) → e ≢ out_of_rounds
Told-err e h g = h (ap err g)

Ends-reply :
    {A : Type 0} (k n : ℕ) (r : Result UvError A) (w : World)
    → Told r
    → Spent k n w
    → Ends (Fine k n) (λ a. Spent k n) (r, w)
Ends-reply k n (ok a) w h s = s
Ends-reply k n (err e) w h s = (Told-err e h, Fits-weaken _ _ _ _ w (omega arith) (omega arith) s.1)

transport_told : transport ≢ out_of_rounds
transport_told e = cc

pub client_pin_spends :
    (request : PinRequest) (k n : ℕ)
    → Spec (Fine k n) (Fits k n) (ctap2_client_pin request) (λ a. Spent k n)
unfolding ctap2_client_pin
client_pin_spends request k n = triple (λ w f. elim (List-cases w.pins) [
  | inl e ↦
      rw (e, ctap2_client_pin)
        (
          transport_told,
          (record {
            infos_told = f.infos_told;
            pins_told = f.pins_told;
            calls_left = omega (arith, f.calls_left);
            entries_left = f.entries_left;
          }),
        )
  | inr (reply, rest, e) ↦
      let told = subst (All Told) e f.pins_told in
      let left = subst (λ pins. length w.infos + length pins ≤ k) e f.calls_left in
      rw (e, ctap2_client_pin)
        (Ends-reply k n reply _ told.0 (
          omega (arith, left),
          record {
            infos_told = f.infos_told;
            pins_told = told.1;
            calls_left = omega (arith, left);
            entries_left = f.entries_left;
          },
        ))
])

pub get_info_spends : (k n : ℕ) → Spec (Fine k n) (Fits k n) ctap2_get_info (λ a. Spent k n)
unfolding ctap2_get_info
get_info_spends k n = triple (λ w f. elim (List-cases w.infos) [
  | inl e ↦
      rw (e, ctap2_get_info)
        (
          transport_told,
          (record {
            infos_told = f.infos_told;
            pins_told = f.pins_told;
            calls_left = omega (arith, f.calls_left);
            entries_left = f.entries_left;
          }),
        )
  | inr (reply, rest, e) ↦
      let told = subst (All Told) e f.infos_told in
      let left = subst (λ infos. length infos + length w.pins ≤ k) e f.calls_left in
      rw (e, ctap2_get_info)
        (Ends-reply k n reply _ told.0 (
          omega (arith, left),
          record {
            infos_told = told.1;
            pins_told = f.pins_told;
            calls_left = omega (arith, left);
            entries_left = f.entries_left;
          },
        ))
])

-- An entry of the user is used up, or the dialog is dismissed.
abbrev pub Asked : ℕ → ℕ → Option (List ℕ) → World → Type 0
Asked k n entry w = Fits k n w × (is_some entry ≡ true → (0 < n) × Fits k (n - 1) w)

pub ask_pin_spends : (call : Call) (k n : ℕ) → Spec (Fine k n) (Fits k n) (ask_pin call) (Asked k n)
unfolding ask_pin
ask_pin_spends call k n = triple (λ w f. elim (List-cases w.entries) [
  | inl e ↦
      rw (e, ask_pin)
        (
          record {
            infos_told = f.infos_told;
            pins_told = f.pins_told;
            calls_left = f.calls_left;
            entries_left = omega arith;
          },
          (λ h. ground arith),
        )
  | inr (entry, rest, e) ↦
      let left = subst (λ entries. length entries ≤ n) e f.entries_left in
      rw (e, ask_pin)
        (
          record {
            infos_told = f.infos_told;
            pins_told = f.pins_told;
            calls_left = f.calls_left;
            entries_left = omega (arith, left);
          },
          (λ h. (
            omega (arith, left),
            record {
              infos_told = f.infos_told;
              pins_told = f.pins_told;
              calls_left = f.calls_left;
              entries_left = omega (arith, left);
            },
          )),
        )
])
