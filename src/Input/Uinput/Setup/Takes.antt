-- ===== src/Input/Uinput/Setup/Takes.antt =====
-- A kernel that takes every call: the devices of internal/input/uinput.go are made.
use wayland_without_borders.Prelude.{
  ℕ, ◌≡◌, refl, none, some, List, [], ◌∷◌, Option, GoError, ok, false,
}
use wayland_without_borders.Input.Uinput.{ev_key}
use wayland_without_borders.Input.Uinput.Release.{TakesAll}
use wayland_without_borders.Input.Uinput.Setup.{
  Call, Device, SetupError, ioctl, chain, wrap, or_else, call, ioctl_all, setup_keyboard,
  keyboard_steps, keyboard_keys, keyboard_made, finished, opened, create_virtual_keyboard, fresh_fd,
  set_ev_bit, set_key_bit, device_setup, dev_create, ui_set_ev_bit, ui_set_key_bit, ui_dev_create,
}

abbrev IsFine {ℓ} : {E : Type ℓ} → Device × Option E → Type ℓ
IsFine r = r.1 ≡ none

module _ (answer : ℕ → GoError) (takes : TakesAll answer) where
  call-IsFine : (c : Call) (d : Device) → IsFine (call answer c d)
  unfolding call
  call-IsFine c d = rw (takes d.asked, call) refl

  chain-IsFine {ℓ} :
      {E : Type ℓ} (r : Device × Option E) (next : Device → Device × Option E)
      → IsFine r
      → ((d : Device) → IsFine (next d))
      → IsFine (chain r next)
  chain-IsFine (d, none) next h k = k d
  chain-IsFine (d, some e) next h k = h

  wrap-IsFine : (f : ℕ → SetupError) (r : Device × GoError) → IsFine r → IsFine (wrap f r)
  wrap-IsFine f (d, none) h = refl
  wrap-IsFine f (d, some e) h = cc

  or_else-IsFine :
      (r : Device × GoError) (second : Device → Device × GoError)
      → IsFine r
      → IsFine (or_else r second)
  or_else-IsFine (d, none) second h = refl
  or_else-IsFine (d, some e) second h = cc

  ioctl_all-IsFine : (r : ℕ) (vs : List ℕ) (d : Device) → IsFine (ioctl_all answer r vs d)
  unfolding ioctl_all
  ioctl_all-IsFine r [] d = refl
  ioctl_all-IsFine r (v ∷ vs) d =
      chain-IsFine (call answer (ioctl r v) d) (ioctl_all answer r vs) (call-IsFine (ioctl r v) d)
        (ioctl_all-IsFine r vs)

  keyboard_steps-IsFine :
      (codes name : List ℕ) (d : Device) → IsFine (keyboard_steps answer codes name d)
  unfolding keyboard_steps keyboard_keys keyboard_made setup_keyboard
  keyboard_steps-IsFine codes name d =
      chain-IsFine (wrap set_ev_bit (ioctl_all answer ui_set_ev_bit (ev_key ∷ []) d))
        (keyboard_keys answer codes name)
        (wrap-IsFine set_ev_bit _ (ioctl_all-IsFine ui_set_ev_bit (ev_key ∷ []) d))
        λ a.
          chain-IsFine (wrap set_key_bit (ioctl_all answer ui_set_key_bit codes a))
            (keyboard_made answer name)
            (wrap-IsFine set_key_bit _ (ioctl_all-IsFine ui_set_key_bit codes a))
            λ b.
              chain-IsFine (wrap device_setup (setup_keyboard answer name b))
                (λ made. wrap dev_create (call answer (ioctl ui_dev_create 0) made))
                (wrap-IsFine device_setup (setup_keyboard answer name b)
                  (or_else-IsFine (call answer _ b) _ (call-IsFine _ b)))
                λ c. wrap-IsFine dev_create _ (call-IsFine (ioctl ui_dev_create 0) c)

  finished_fine {ℓ} :
      {A : Type ℓ} (made : Device → A) (r : Device × Option SetupError)
      → IsFine r
      → finished answer made r ≡ (some r.0, ok (made r.0))
  unfolding finished
  finished_fine made (d, none) h = refl
  finished_fine made (d, some e) h = cc

  pub created_keyboard :
      (codes name : List ℕ)
      → (d : Device) × (create_virtual_keyboard answer none codes name
          ≡ (some d, ok (record { fd = fresh_fd answer d; pressed = [] })))
  unfolding create_virtual_keyboard opened
  created_keyboard codes name =
      let start : Device = record { taken = []; asked = 0; closed = false } in
      (
        (keyboard_steps answer codes name start).0,
        finished_fine (λ d. record { fd = fresh_fd answer d; pressed = [] })
            (keyboard_steps answer codes name start) (keyboard_steps-IsFine codes name start),
      )
