-- ===== src/Network/Handler/Keys/Held.antt =====
-- No key stays down: the handler's keyboard half over the virtual keyboard
-- (internal/network/handler.go and internal/input/uinput.go).
use wayland_without_borders.Prelude.{ℕ, ◌≡◌, false, none, List, [], ◌∷◌, GoError}
use wayland_without_borders.Prelude.Text.{Text}
use wayland_without_borders.Protocol.Packet.{KeyboardData}
use wayland_without_borders.Input.Keymap.Registered.{IsPick}
use wayland_without_borders.Input.Uinput
use wayland_without_borders.Input.Uinput.{VirtualKeyboard}
use wayland_without_borders.Input.Uinput.Keyboard.{InSync, key_down-InSync, key_up-InSync, is_down}
use wayland_without_borders.Input.Uinput.Release.{release_all-is_down}
use wayland_without_borders.Network.Devices.{KeyboardDevice, virtual_keyboard}
use wayland_without_borders.Network.Handler.Keys.{
  KeyState, handle_keyboard, flush_pending_ctrl, release_all_keys,
}
use wayland_without_borders.Network.Handler.Keys.Kept.{flush-IsKept, handle_keyboard-IsKept}
use wayland_without_borders.Network.Handler.Keys.Chords.{handle_keys}

-- What every press and release keeps, a packet keeps.
module _ {ℓ} (kb : KeyboardDevice) (P : kb.State → Type ℓ)
    (down : (k : kb.State) (code : ℕ) → P k → P (kb.key_down k code).0)
    (up : (k : kb.State) (code : ℕ) → P k → P (kb.key_up k code).0) where
  pub flush_keeps : (s : KeyState kb.State) → P s.keyboard → P (flush_pending_ctrl kb s).0.keyboard
  flush_keeps s h =
      (flush-IsKept kb P (λ code. Unit) (λ k code g. down k code) (λ k code g. up k code) s
        (h, λ e. tt)).0

  pub handle_keyboard_keeps :
      (s : KeyState kb.State) (kd : KeyboardData) (layout : Text)
      → P s.keyboard
      → P (handle_keyboard kb s kd layout).keyboard
  handle_keyboard_keeps s kd layout h =
      (handle_keyboard-IsKept kb P (λ code. Unit) (λ k code g. down k code) (λ k code g. up k code)
        s kd layout (λ code e. tt) (h, λ e. tt)).0

module _ (answer : ℕ → GoError) (pick : List ℕ → List ℕ) where
  abbrev keyboard : KeyboardDevice
  keyboard = virtual_keyboard answer pick

  -- The pressed keys stay in step with the kernel through any keyboard packet, also where the
  -- kernel refuses writes.
  pub handle_keyboard-InSync :
      (s : KeyState VirtualKeyboard) (kd : KeyboardData) (layout : Text)
      → InSync s.keyboard
      → InSync (handle_keyboard keyboard s kd layout).keyboard
  handle_keyboard-InSync =
      handle_keyboard_keeps keyboard InSync (key_down-InSync answer) (key_up-InSync answer)

  handle_keys-InSync :
      (kds : List KeyboardData) (s : KeyState VirtualKeyboard) (layout : Text)
      → InSync s.keyboard
      → InSync (handle_keys keyboard s kds layout).keyboard
  unfolding handle_keys
  handle_keys-InSync [] s layout h = h
  handle_keys-InSync (kd ∷ kds) s layout h =
      handle_keys-InSync kds (handle_keyboard keyboard s kd layout) layout
        (handle_keyboard-InSync s kd layout h)

  -- After any run of keyboard packets, a release of all keys that the kernel takes leaves no key
  -- down, not even one whose release never came.
  pub release_after_keys :
      (kds : List KeyboardData) (s : KeyState VirtualKeyboard) (layout : Text) (a : ℕ)
      → IsPick pick
      → InSync s.keyboard
      → (Uinput.release_all answer pick (handle_keys keyboard s kds layout).keyboard).1 ≡ none
      → is_down a
          (release_all_keys keyboard (handle_keys keyboard s kds layout)).keyboard.fd.written
        ≡ false
  unfolding release_all_keys
  release_after_keys kds s layout a p h e =
      release_all-is_down answer pick (handle_keys keyboard s kds layout).keyboard a p
        (handle_keys-InSync kds s layout h) e
