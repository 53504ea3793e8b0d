-- ===== src/Input/Uinput/Setup.antt =====
-- `CreateVirtualMouse` and `CreateVirtualKeyboard` of internal/input/uinput.go.
-- `answer n` is what the kernel answers to the n-th system call on the device; the answer to the
-- call that opens /dev/uinput is an argument of its own.
pub mod Supported
pub mod Writes
pub mod Heard
pub mod Takes
use wayland_without_borders.Prelude.{
  ℕ, suc, ◌-◌, Bool, true, false, Option, none, some, List, [], ◌∷◌, ◌++◌, GoError, Result, ok, err,
  take, length, replicate, set,
}
use wayland_without_borders.Input.Codes.{btn_left, btn_right, btn_middle, btn_side, btn_extra}
use wayland_without_borders.Input.Uinput.{
  Fd, VirtualKeyboard, ev_key, ev_rel, ev_abs, rel_wheel, rel_h_wheel, abs_x, abs_y,
}

abbrev pub ui_dev_create : ℕ
ui_dev_create = 0x5501

abbrev pub ui_dev_destroy : ℕ
ui_dev_destroy = 0x5502

abbrev pub ui_set_ev_bit : ℕ
ui_set_ev_bit = 0x40045564

abbrev pub ui_set_key_bit : ℕ
ui_set_key_bit = 0x40045565

abbrev pub ui_set_rel_bit : ℕ
ui_set_rel_bit = 0x40045566

abbrev pub ui_set_abs_bit : ℕ
ui_set_abs_bit = 0x40045567

abbrev pub ui_set_prop_bit : ℕ
ui_set_prop_bit = 0x4004556e

abbrev pub input_prop_pointer : ℕ
input_prop_pointer = 0

abbrev pub abs_cnt : ℕ
abs_cnt = 0x40

abbrev pub bus_virtual : ℕ
bus_virtual = 0x06

pub record InputId : Type 0 where
  pub bustype : ℕ
  pub vendor : ℕ
  pub product : ℕ
  pub version : ℕ

pub record UinputSetup : Type 0 where
  pub id : InputId
  pub name : List ℕ

-- The fields of the axis that the code leaves at 0 are left out.
pub record UinputAbsSetup : Type 0 where
  pub axis : ℕ
  pub maximum : ℕ

pub record UinputUserDev : Type 0 where
  pub name : List ℕ
  pub id : InputId
  pub abs_max : List ℕ

-- A system call on the device: an ioctl with a number (its request first), `UI_DEV_SETUP` and
-- `UI_ABS_SETUP` with their structures, or a write of the legacy structure.
pub data Call : Type 0 where
  ioctl : ℕ → ℕ → Call
  dev_setup : UinputSetup → Call
  abs_setup : UinputAbsSetup → Call
  user_dev : UinputUserDev → Call

-- An open /dev/uinput: the calls that the kernel accepted, the last one first, how often it was
-- asked, and whether the file is closed.
pub record Device : Type 0 where
  pub taken : List Call
  pub asked : ℕ
  pub closed : Bool

pub data SetupError : Type 0 where
  open_uinput set_ev_bit set_key_bit set_abs_bit set_rel_bit device_setup dev_create :
      ℕ → SetupError

-- `copy(setup.Name[:], name)`, into 80 zero bytes.
unfoldable pub name_field : List ℕ → List ℕ
name_field name = take 80 name ++ replicate (80 - length name) 0

abbrev pub mouse_id : InputId
mouse_id = record { bustype = bus_virtual; vendor = 0x4D57; product = 0x4231; version = 1 }

abbrev pub keyboard_id : InputId
keyboard_id = record { bustype = bus_virtual; vendor = 0x4D57; product = 0x4B31; version = 1 }

abbrev pub mouse_buttons : List ℕ
mouse_buttons = btn_left ∷ btn_right ∷ btn_middle ∷ btn_side ∷ btn_extra ∷ []

-- `if err := ...; err != nil { return err }`, then the rest.
abbrev pub chain {ℓ} :
    {E : Type ℓ} → Device × Option E → (Device → Device × Option E) → Device × Option E
chain (d, none) next = next d
chain (d, some e) next = (d, some e)

-- `fmt.Errorf("...: %w", err)`
abbrev pub wrap : (ℕ → SetupError) → Device × GoError → Device × Option SetupError
wrap f (d, none) = (d, none)
wrap f (d, some e) = (d, some (f e))

-- `if err := first; err != nil { err = second }`
abbrev pub or_else : Device × GoError → (Device → Device × GoError) → Device × GoError
or_else (d, none) second = (d, none)
or_else (d, some e) second = second d

module _ (answer : ℕ → GoError) where
  -- `ioctl`, `ioctlPtr` and `binary.Write` of the legacy structure
  unfoldable pub call : Call → Device → Device × GoError
  call c d = elim (answer d.asked) [
    | none ↦ (record d { taken = c ∷ d.taken; asked = suc d.asked }, none)
    | some e ↦ (record d { asked = suc d.asked }, some e)
  ]

  -- A loop of ioctls, up to the first error.
  unfoldable pub ioctl_all : ℕ → List ℕ → Device → Device × GoError
  unfolding call
  ioctl_all request [] d = (d, none)
  ioctl_all request (v ∷ vs) d = chain (call (ioctl request v) d) (ioctl_all request vs)

  unfoldable pub abs_setups : List ℕ → Device → Device × GoError
  unfolding call
  abs_setups [] d = (d, none)
  abs_setups (a ∷ axes) d =
      chain (call (abs_setup (record { axis = a; maximum = 65535 })) d) (abs_setups axes)

  unfoldable pub setup_mouse_new : List ℕ → Device → Device × GoError
  unfolding call name_field abs_setups
  setup_mouse_new name d =
      chain (call (dev_setup (record { id = mouse_id; name = name_field name })) d)
        (abs_setups (abs_x ∷ abs_y ∷ []))

  unfoldable pub setup_mouse_legacy : List ℕ → Device → Device × GoError
  unfolding call name_field
  setup_mouse_legacy name = call (
      user_dev (record {
        name = name_field name;
        id = mouse_id;
        abs_max = set (set (replicate abs_cnt 0) abs_x 65535) abs_y 65535;
      }))

  -- `CreateVirtualMouse` from the open file on, its last steps first: the property, the setup and
  -- `UI_DEV_CREATE`.
  unfoldable pub mouse_made : List ℕ → Device → Device × Option SetupError
  unfolding call setup_mouse_new setup_mouse_legacy
  mouse_made name d =
      let asked : Device = (call (ioctl ui_set_prop_bit input_prop_pointer) d).0 in
      chain (wrap device_setup (or_else (setup_mouse_new name asked) (setup_mouse_legacy name)))
        (λ made. wrap dev_create (call (ioctl ui_dev_create 0) made))

  unfoldable pub mouse_wheels : List ℕ → Device → Device × Option SetupError
  unfolding ioctl_all mouse_made
  mouse_wheels name d =
      chain (wrap set_rel_bit (ioctl_all ui_set_rel_bit (rel_wheel ∷ rel_h_wheel ∷ []) d))
        (mouse_made name)

  unfoldable pub mouse_axes : List ℕ → Device → Device × Option SetupError
  unfolding ioctl_all mouse_wheels
  mouse_axes name d =
      chain (wrap set_abs_bit (ioctl_all ui_set_abs_bit (abs_x ∷ abs_y ∷ []) d)) (mouse_wheels name)

  unfoldable pub mouse_keys : List ℕ → Device → Device × Option SetupError
  unfolding ioctl_all mouse_axes
  mouse_keys name d =
      chain (wrap set_key_bit (ioctl_all ui_set_key_bit mouse_buttons d)) (mouse_axes name)

  unfoldable pub mouse_steps : List ℕ → Device → Device × Option SetupError
  unfolding ioctl_all mouse_keys
  mouse_steps name d =
      chain (wrap set_ev_bit (ioctl_all ui_set_ev_bit (ev_key ∷ ev_abs ∷ ev_rel ∷ []) d))
        (mouse_keys name)

  unfoldable pub setup_keyboard : List ℕ → Device → Device × GoError
  unfolding call name_field
  setup_keyboard name d =
      or_else (call (dev_setup (record { id = keyboard_id; name = name_field name })) d) (
        call (
          user_dev
            (record { name = name_field name; id = keyboard_id; abs_max = replicate abs_cnt 0 })))

  -- `CreateVirtualKeyboard` from the open file on, its last steps first; `codes` is what
  -- `usedKeyCodes` returns.
  unfoldable pub keyboard_made : List ℕ → Device → Device × Option SetupError
  unfolding call setup_keyboard
  keyboard_made name d =
      chain (wrap device_setup (setup_keyboard name d))
        (λ made. wrap dev_create (call (ioctl ui_dev_create 0) made))

  unfoldable pub keyboard_keys : List ℕ → List ℕ → Device → Device × Option SetupError
  unfolding ioctl_all keyboard_made
  keyboard_keys codes name d =
      chain (wrap set_key_bit (ioctl_all ui_set_key_bit codes d)) (keyboard_made name)

  unfoldable pub keyboard_steps : List ℕ → List ℕ → Device → Device × Option SetupError
  unfolding ioctl_all keyboard_keys
  keyboard_steps codes name d =
      chain (wrap set_ev_bit (ioctl_all ui_set_ev_bit (ev_key ∷ []) d)) (keyboard_keys codes name)

  -- The deferred function closes the file unless all went well.
  unfoldable pub finished {ℓ} :
      {A : Type ℓ} → (Device → A) → Device × Option SetupError → Option Device × Result SetupError A
  finished made (d, none) = (some d, ok (made d))
  finished made (d, some e) = (some (record d { closed = true }), err e)

  unfoldable pub opened {ℓ} :
      {A : Type ℓ}
      → (Device → A)
      → (Device → Device × Option SetupError)
      → GoError
      → Option Device × Result SetupError A
  unfolding finished
  opened made steps (some e) = (none, err (open_uinput e))
  opened made steps none = finished made (steps (record { taken = []; asked = 0; closed = false }))

  -- The file behind a new device: no event is written yet.
  abbrev pub fresh_fd : Device → Fd
  fresh_fd d = record { written = []; calls = d.asked }

  unfoldable pub create_virtual_mouse : GoError → List ℕ → Option Device × Result SetupError Fd
  unfolding mouse_steps opened
  create_virtual_mouse open_answer name = opened fresh_fd (mouse_steps name) open_answer

  unfoldable pub create_virtual_keyboard :
      GoError → List ℕ → List ℕ → Option Device × Result SetupError VirtualKeyboard
  unfolding keyboard_steps opened
  create_virtual_keyboard open_answer codes name =
      opened (λ d. record { fd = fresh_fd d; pressed = [] }) (keyboard_steps codes name) open_answer

  -- `Close` of both: the error of `UI_DEV_DESTROY` is dropped.
  unfoldable pub close : Device → Device × GoError
  unfolding call
  close d =
      let (e, ignored_error) = call (ioctl ui_dev_destroy 0) d in
      (record e { asked = suc e.asked; closed = true }, answer e.asked)
