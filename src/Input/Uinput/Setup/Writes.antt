-- ===== src/Input/Uinput/Setup/Writes.antt =====
-- The new devices of internal/input/uinput.go, and the events written to them.
use wayland_without_borders.Prelude.{
  ℕ, ◌≡◌, refl, true, false, Option, none, some, List, [], GoError, Result, ok, err, arith,
  Option-cases, inl, inr,
}
use wayland_without_borders.Prelude.Int.{ℤ, pos}
use wayland_without_borders.Prelude.Bytes.{All}
use wayland_without_borders.Input.Uinput
use wayland_without_borders.Input.Uinput.{
  InputEvent, Fd, VirtualKeyboard, ev_syn, ev_key, ev_rel, ev_abs, rel_wheel, rel_h_wheel, abs_x,
  abs_y,
}
use wayland_without_borders.Input.Keymap.Registered.{contains}
use wayland_without_borders.Input.Uinput.Setup.{
  Device, SetupError, mouse_steps, keyboard_steps, finished, opened, create_virtual_mouse,
  create_virtual_keyboard, mouse_buttons, fresh_fd, ui_dev_create,
}
use wayland_without_borders.Input.Uinput.Setup.Supported.{
  has, code_request, supports, OnSuccess, Made, mouse_facts, keyboard_facts, mouse_steps-Has,
  keyboard_steps-Has,
}

-- Either the device is open and made and the caller has it, or the caller has an error and no file
-- is left open.
abbrev pub IsClean {ℓ} : {A : Type ℓ} → Option Device × Result SetupError A → Type 0
IsClean (some d, ok m) = (d.closed ≡ false) × (has ui_dev_create 0 d.taken ≡ true)
IsClean (some d, err e) = d.closed ≡ true
IsClean (none, ok m) = ⊥
IsClean (none, err e) = Unit

-- What a caller that has its device knows of it.
abbrev pub Given {ℓ κ} :
    {A : Type ℓ} → (Device → A → Type κ) → Option Device × Result SetupError A → Type κ
Given P (some d, ok m) = P d m
Given P (some d, err e) = Unit
Given P (none, r) = Unit

module _ (answer : ℕ → GoError) where
  pub opened-Given {ℓ κ} :
      {A : Type ℓ} (P : Device → Type κ) (made : Device → A)
      (steps : Device → Device × Option SetupError) (o : GoError)
      → OnSuccess P (steps (record { taken = []; asked = 0; closed = false }))
      → Given (λ d m. P d × (m ≡ made d)) (opened answer made steps o)
  unfolding opened finished
  opened-Given P made steps (some e) h = tt
  opened-Given P made steps none h = go (steps (record { taken = []; asked = 0; closed = false })) h
    where
      go :
          (r : Device × Option SetupError)
          → OnSuccess P r
          → Given (λ d m. P d × (m ≡ made d)) (finished answer made r)
      go (d, none) k = (k, refl)
      go (d, some e) k = tt

  opened-IsClean {ℓ} :
      {A : Type ℓ} (facts : List (ℕ × ℕ)) (made : Device → A)
      (steps : Device → Device × Option SetupError) (o : GoError)
      → OnSuccess (Made answer facts) (steps (record { taken = []; asked = 0; closed = false }))
      → IsClean (opened answer made steps o)
  unfolding opened finished
  opened-IsClean facts made steps (some e) h = tt
  opened-IsClean facts made steps none h =
      go (steps (record { taken = []; asked = 0; closed = false })) h
    where
      go :
          (r : Device × Option SetupError)
          → OnSuccess (Made answer facts) r
          → IsClean (finished answer made r)
      go (d, none) (o, (made, k)) = (o, made)
      go (d, some e) k = refl

  -- A device that is asked for is open, made and in the caller's hands, or the caller has an error
  -- and no file is left open, whatever the kernel answers to the calls of the setup.
  pub created_or_closed :
      (o : GoError) (codes name : List ℕ)
      → IsClean (create_virtual_mouse answer o name)
        × IsClean (create_virtual_keyboard answer o codes name)
  unfolding create_virtual_mouse create_virtual_keyboard
  created_or_closed o codes name = (
    opened-IsClean (mouse_facts answer) (fresh_fd answer) (mouse_steps answer name) o
        (mouse_steps-Has answer name _ (refl, tt)),
    opened-IsClean (keyboard_facts answer codes)
        (λ d. record { fd = fresh_fd answer d; pressed = [] }) (keyboard_steps answer codes name) o
        (keyboard_steps-Has answer codes name _ (refl, tt)),
  )

-- Every event that was written is one for which the device was registered.
abbrev pub IsHeard : Device → Fd → Type 0
IsHeard d fd = All (λ (e : InputEvent). supports d e ≡ true) fd.written

abbrev pub event : ℕ → ℕ → ℤ → InputEvent
event typ code value = record { typ = typ; code = code; value = value }

module _ (answer : ℕ → GoError) (d : Device) where
  pub write_event-IsHeard :
      (fd : Fd) (typ code : ℕ) (value : ℤ)
      → supports d (event typ code value) ≡ true
      → IsHeard d fd
      → IsHeard d (Uinput.write_event answer fd typ code value).0
  unfolding Uinput.write_event
  write_event-IsHeard fd typ code value s h = elim (Option-cases (answer fd.calls)) [
    | inl e ↦ rw (e, Uinput.write_event) (s, h)
    | inr (n, e) ↦ rw (e, Uinput.write_event) h
  ]

  pub sync_events-IsHeard : (fd : Fd) → IsHeard d fd → IsHeard d (Uinput.sync_events answer fd).0
  unfolding Uinput.sync_events supports
  sync_events-IsHeard fd h = write_event-IsHeard fd ev_syn 0 (pos 0) refl h

  pub then-IsHeard :
      (r : Fd × GoError) (next : Fd → Fd × GoError)
      → IsHeard d r.0
      → ((fd : Fd) → IsHeard d fd → IsHeard d (next fd).0)
      → IsHeard d (Uinput.then_on_success answer r next).0
  then-IsHeard (fd, none) next h k = k fd h
  then-IsHeard (fd, some e) next h k = h

  -- One event with its sync.
  pub synced-IsHeard :
      (fd : Fd) (typ code : ℕ) (value : ℤ)
      → supports d (event typ code value) ≡ true
      → IsHeard d fd
      → IsHeard d
          (Uinput.then_on_success answer
            (Uinput.write_event answer fd typ code value)
            (Uinput.sync_events answer)).0
  synced-IsHeard fd typ code value s h =
      then-IsHeard (Uinput.write_event answer fd typ code value) (Uinput.sync_events answer)
        (write_event-IsHeard fd typ code value s h) sync_events-IsHeard

  module _ (ready : Made answer (mouse_facts answer) d) where
    pub abs-supports :
        (x : ℤ)
        → (supports d (event ev_abs abs_x x) ≡ true) × (supports d (event ev_abs abs_y x) ≡ true)
    unfolding supports code_request
    abs-supports x = (ground (arith, ready), ground (arith, ready))

    pub rel-supports :
        (x : ℤ)
        → (supports d (event ev_rel rel_wheel x) ≡ true)
          × (supports d (event ev_rel rel_h_wheel x) ≡ true)
    unfolding supports code_request
    rel-supports x = (ground (arith, ready), ground (arith, ready))

    pub button-supports :
        (b : ℕ) (x : ℤ) → contains b mouse_buttons ≡ true → supports d (event ev_key b x) ≡ true
    unfolding supports code_request
    button-supports b x h = ground (arith, ready)
