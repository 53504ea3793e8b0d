-- ===== src/Examples/Devices.antt =====
-- The devices as internal/input/uinput.go makes them, on a kernel that takes every call and on one
-- that refuses the first.
use wayland_without_borders.Prelude.{
  ℕ, refl, true, ◌≡◌, false, Option, none, some, [], ◌∷◌, GoError, ◌==◌, if◌then◌else◌,
}
use wayland_without_borders.Prelude.Float.{integral_floats}
use wayland_without_borders.Prelude.Text.{bytes_of}
use wayland_without_borders.Input.Keymap.{vk_map}
use wayland_without_borders.Input.Keymap.Registered.{used_key_codes}
use wayland_without_borders.Input.Uinput.Setup.{
  Device, create_virtual_mouse, create_virtual_keyboard, fresh_fd,
}
use wayland_without_borders.Input.Uinput.Setup.Writes.{IsClean, IsHeard, created_or_closed}
use wayland_without_borders.Input.Uinput.Setup.Takes.{created_keyboard}
use wayland_without_borders.Input.Darwin
use wayland_without_borders.Input.Darwin.Held.{is_down, key_calls, release_all-key_calls}
use wayland_without_borders.Network.Devices.{virtual_keyboard, virtual_mouse}
use wayland_without_borders.Network.Handler.{HandlerState}
use wayland_without_borders.Network.Handler.Released.{handle_packets}
use wayland_without_borders.Network.Handler.Heard.{handle_packets-IsHeard}
use wayland_without_borders.Examples.Handling.{
  takes, any_order, counter, world, shift_packet, resting,
}

abbrev refuses_second : ℕ → GoError
refuses_second n = if n == 1 then some 22 else none

abbrev device_of : Option Device → Device
device_of none = record { taken = []; asked = 0; closed = true }
device_of (some d) = d

created_or_closed_example :
    IsClean (create_virtual_mouse refuses_second none (bytes_of "mwb mouse"))
    × IsClean (create_virtual_keyboard refuses_second none (30 ∷ 31 ∷ []) (bytes_of "mwb mouse"))
created_or_closed_example =
    created_or_closed refuses_second none (30 ∷ 31 ∷ []) (bytes_of "mwb mouse")

abbrev mouse_device : Device
mouse_device = device_of (create_virtual_mouse takes none (bytes_of "mouse")).0

-- The codes are many: that the kernel takes all of them is a lemma, and no computation.
abbrev keys_device : Device
keys_device =
    (created_keyboard takes (λ n. refl) (used_key_codes vk_map any_order) (bytes_of "keys")).0

abbrev on_new_devices :
    HandlerState integral_floats (virtual_keyboard takes any_order) (virtual_mouse takes) counter
on_new_devices = record resting {
  keys = record (resting.keys) {
    keyboard = record { fd = fresh_fd takes keys_device; pressed = [] };
  };
  cursor = record (resting.cursor) { mouse = fresh_fd takes mouse_device };
}

abbrev after_shift :
    HandlerState integral_floats (virtual_keyboard takes any_order) (virtual_mouse takes) counter
after_shift =
    handle_packets integral_floats (virtual_keyboard takes any_order) (virtual_mouse takes) counter
      on_new_devices ((world, shift_packet) ∷ [])

handle_packets-IsHeard_example :
    IsHeard mouse_device after_shift.cursor.mouse × IsHeard keys_device after_shift.keys.keyboard.fd
unfolding create_virtual_mouse create_virtual_keyboard
handle_packets-IsHeard_example =
    handle_packets-IsHeard integral_floats counter takes takes any_order vk_map any_order
      (λ k v. refl) (λ a xs. refl) (λ a xs. refl) none none (bytes_of "mouse") (bytes_of "keys")
      mouse_device keys_device on_new_devices refl
      (created_keyboard takes (λ n. refl) (used_key_codes vk_map any_order) (bytes_of "keys")).1
      refl ((world, shift_packet) ∷ [])

-- On macOS: one key pressed and never released.
abbrev mac_keyboard : Darwin.VirtualKeyboard ℕ
mac_keyboard = Darwin.create_virtual_keyboard

mac_released :
    (Darwin.release_all takes any_order (key_calls takes ((56, true) ∷ []) mac_keyboard)).1 ≡ none
unfolding Darwin.release_all Darwin.release_loop Darwin.post Darwin.key_down key_calls
mac_released = refl

release_all-key_calls_example :
    is_down 56
      (Darwin.release_all takes any_order
        (key_calls takes ((56, true) ∷ []) mac_keyboard)).0.tap.posted
    ≡ false
unfolding is_down
release_all-key_calls_example =
    release_all-key_calls takes any_order ((56, true) ∷ []) mac_keyboard 56 (λ a xs. refl)
      (λ code. refl) mac_released
