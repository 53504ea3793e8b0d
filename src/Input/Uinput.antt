-- ===== src/Input/Uinput.antt =====
-- internal/input/uinput.go: the virtual mouse and the virtual keyboard on /dev/uinput.
-- `answer n` is what the kernel answers to the n-th write on the device: `none` if it takes the
-- event, an error number if not.
pub mod Keyboard
pub mod Release
pub mod Setup
use wayland_without_borders.Prelude.{
  ℕ, suc, ◌+◌, ◌≡◌, refl, Bool, true, false, ◌&&◌, Option, none, some, List, [], ◌∷◌, ◌==◌,
  if◌then◌else◌, GoError,
}
use wayland_without_borders.Prelude.Int.{ℤ, pos, eqb_ℤ}
use wayland_without_borders.Input.Keymap.Registered.{contains}

abbrev pub ev_syn : ℕ
ev_syn = 0

abbrev pub ev_key : ℕ
ev_key = 1

abbrev pub ev_rel : ℕ
ev_rel = 2

abbrev pub ev_abs : ℕ
ev_abs = 3

abbrev pub rel_wheel : ℕ
rel_wheel = 0x08

abbrev pub rel_h_wheel : ℕ
rel_h_wheel = 0x06

abbrev pub abs_x : ℕ
abs_x = 0

abbrev pub abs_y : ℕ
abs_y = 1

-- The time fields of an event that is written are 0.
pub record InputEvent : Type 0 where
  pub typ : ℕ
  pub code : ℕ
  pub value : ℤ

-- An open device: the events that the kernel took, the last one first, and how often it was asked.
pub record Fd : Type 0 where
  pub written : List InputEvent
  pub calls : ℕ

pub record VirtualKeyboard : Type 0 where
  pub fd : Fd
  pub pressed : List ℕ

-- `pressed[code] = true` and `delete(pressed, code)`
unfoldable pub add_key : ℕ → List ℕ → List ℕ
add_key code keys = if contains code keys then keys else code ∷ keys

unfoldable pub remove_key : ℕ → List ℕ → List ℕ
remove_key code [] = []
remove_key code (k ∷ keys) = if k == code then remove_key code keys else k ∷ remove_key code keys

module _ (answer : ℕ → GoError) where
  unfoldable pub write_event : Fd → ℕ → ℕ → ℤ → Fd × GoError
  write_event fd typ code value = elim (answer fd.calls) [
    | none ↦ (
      record fd {
        written = record { typ = typ; code = code; value = value } ∷ fd.written;
        calls = suc fd.calls;
      },
      none,
    )
    | some e ↦ (record fd { calls = suc fd.calls }, some e)
  ]

  unfoldable pub sync_events : Fd → Fd × GoError
  sync_events fd = write_event fd ev_syn 0 (pos 0)

  -- `if err := writeEvent(...); err != nil { return err }`, then the rest.
  abbrev pub then_on_success : Fd × GoError → (Fd → Fd × GoError) → Fd × GoError
  then_on_success (fd, none) next = next fd
  then_on_success (fd, some e) next = (fd, some e)

  -- The methods of `VirtualMouse`, whose only field is its device.
  unfoldable pub move_to : Fd → ℤ → ℤ → Fd × GoError
  unfolding write_event sync_events
  move_to fd x y =
      then_on_success (write_event fd ev_abs abs_x x)
        (λ a. then_on_success (write_event a ev_abs abs_y y) sync_events)

  unfoldable pub button_down : Fd → ℕ → Fd × GoError
  unfolding write_event sync_events
  button_down fd button = then_on_success (write_event fd ev_key button (pos 1)) sync_events

  unfoldable pub button_up : Fd → ℕ → Fd × GoError
  unfolding write_event sync_events
  button_up fd button = then_on_success (write_event fd ev_key button (pos 0)) sync_events

  unfoldable pub wheel : Fd → ℤ → Fd × GoError
  unfolding write_event sync_events
  wheel fd delta = then_on_success (write_event fd ev_rel rel_wheel delta) sync_events

  unfoldable pub h_wheel : Fd → ℤ → Fd × GoError
  unfolding write_event sync_events
  h_wheel fd delta = then_on_success (write_event fd ev_rel rel_h_wheel delta) sync_events

  -- The map is changed only after the kernel took the key event.
  unfoldable pub after_key :
      VirtualKeyboard → (List ℕ → List ℕ) → Fd × GoError → VirtualKeyboard × GoError
  unfolding sync_events
  after_key k change (fd, some e) = (record k { fd = fd }, some e)
  after_key k change (fd, none) =
      let (synced, e) = sync_events fd in (record { fd = synced; pressed = change k.pressed }, e)

  unfoldable pub key_down : VirtualKeyboard → ℕ → VirtualKeyboard × GoError
  unfolding write_event after_key add_key
  key_down k code = after_key k (add_key code) (write_event k.fd ev_key code (pos 1))

  unfoldable pub key_up : VirtualKeyboard → ℕ → VirtualKeyboard × GoError
  unfolding write_event after_key remove_key
  key_up k code = after_key k (remove_key code) (write_event k.fd ev_key code (pos 0))

  -- `if err != nil && firstErr == nil { firstErr = err }`
  abbrev pub first_error : GoError → GoError → GoError
  first_error none e = e
  first_error (some f) e = some f

  unfoldable pub release_loop : List ℕ → Fd → GoError → Fd × GoError
  unfolding write_event
  release_loop [] fd first = (fd, first)
  release_loop (code ∷ codes) fd first =
      let (fd', e) = write_event fd ev_key code (pos 0) in
      release_loop codes fd' (first_error first e)

  unfoldable pub sync_released : List ℕ → Fd × GoError → Fd × GoError
  unfolding sync_events
  sync_released [] r = r
  sync_released (code ∷ codes) (fd, first) =
      let (fd', e) = sync_events fd in (fd', first_error first e)

  -- `pick` is the order in which Go ranges over the map.
  unfoldable pub release_all : (List ℕ → List ℕ) → VirtualKeyboard → VirtualKeyboard × GoError
  unfolding release_loop sync_released
  release_all pick k =
      let codes = pick k.pressed in
      let (fd, e) = sync_released codes (release_loop codes k.fd none) in
      (record { fd = fd; pressed = [] }, e)
