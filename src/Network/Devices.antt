-- ===== src/Network/Devices.antt =====
-- The interfaces `MouseDevice`, `KeyboardDevice` and `ClipboardHandler` of
-- internal/network/handler.go, and the virtual devices of internal/input/uinput.go as instances.
use wayland_without_borders.Prelude.{ℕ, List, GoError}
use wayland_without_borders.Prelude.Int.{ℤ}
use wayland_without_borders.Protocol.Packet.{Packet}
use wayland_without_borders.Input.Uinput
use wayland_without_borders.Input.Uinput.{Fd, VirtualKeyboard}

-- A method takes the device's state and returns the new one with its error.
pub record MouseDevice : Type 1 where
  pub State : Type 0
  pub move_to : State → ℤ → ℤ → State × GoError
  pub button_down : State → ℕ → State × GoError
  pub button_up : State → ℕ → State × GoError
  pub wheel : State → ℤ → State × GoError
  pub h_wheel : State → ℤ → State × GoError

pub record KeyboardDevice : Type 1 where
  pub State : Type 0
  pub key_down : State → ℕ → State × GoError
  pub key_up : State → ℕ → State × GoError
  pub release_all : State → State × GoError

pub record ClipboardHandler : Type 1 where
  pub State : Type 0
  pub handle_packet : State → Packet → State

abbrev pub virtual_mouse : (ℕ → GoError) → MouseDevice
virtual_mouse answer = record {
  State = Fd;
  move_to = Uinput.move_to answer;
  button_down = Uinput.button_down answer;
  button_up = Uinput.button_up answer;
  wheel = Uinput.wheel answer;
  h_wheel = Uinput.h_wheel answer;
}

abbrev pub virtual_keyboard : (ℕ → GoError) → (List ℕ → List ℕ) → KeyboardDevice
virtual_keyboard answer pick = record {
  State = VirtualKeyboard;
  key_down = Uinput.key_down answer;
  key_up = Uinput.key_up answer;
  release_all = Uinput.release_all answer pick;
}
