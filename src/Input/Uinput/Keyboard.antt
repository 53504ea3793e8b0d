-- ===== src/Input/Uinput/Keyboard.antt =====
-- The keys that the virtual keyboard holds down, against the kernel's view (internal/input/uinput.go).
use wayland_without_borders.Prelude.{
  ℕ, ◌≡◌, Bool, true, false, ◌&&◌, ◌||◌, not, none, List, [], ◌∷◌, ◌==◌, if◌then◌else◌, GoError,
  arith,
}
use wayland_without_borders.Prelude.Int.{pos, eqb_ℤ}
use wayland_without_borders.Input.Keymap.Registered.{contains, contains_same}
use wayland_without_borders.Input.Uinput.{
  InputEvent, VirtualKeyboard, add_key, remove_key, key_down, key_up, ev_key,
}

-- Whether the kernel has the key down: what its last event for that key says.
unfoldable pub is_down : ℕ → List InputEvent → Bool
is_down code [] = false
is_down code (e ∷ es) =
    if e.typ == ev_key && e.code == code then not (eqb_ℤ e.value (pos 0)) else is_down code es

-- The map of pressed keys is the kernel's view.
abbrev pub InSync : VirtualKeyboard → Type 0
InSync k = (code : ℕ) → contains code k.pressed ≡ is_down code k.fd.written

pub contains-add_key :
    (a code : ℕ) (keys : List ℕ) → contains a (add_key code keys) ≡ (code == a || contains a keys)
unfolding add_key
contains-add_key a code keys = ground (arith, contains_same a code keys)

pub contains-remove_key :
    (a code : ℕ) (keys : List ℕ)
    → contains a (remove_key code keys) ≡ (not (code == a) && contains a keys)
unfolding remove_key
contains-remove_key a code [] = ground arith
contains-remove_key a code (k ∷ keys) = ground (arith, contains-remove_key a code keys)

module _ (answer : ℕ → GoError) where
  -- A press leaves the map of pressed keys in step with the kernel, also where a write fails, if the
  -- map was so before.
  pub key_down-InSync :
      (k : VirtualKeyboard) (code : ℕ) → InSync k → InSync (key_down answer k code).0
  unfolding key_down is_down
  key_down-InSync k code s a = ground (arith, s a, contains-add_key a code k.pressed)

  -- A release leaves the map of pressed keys in step with the kernel, also where a write fails, if
  -- the map was so before.
  pub key_up-InSync : (k : VirtualKeyboard) (code : ℕ) → InSync k → InSync (key_up answer k code).0
  unfolding key_up is_down
  key_up-InSync k code s a = ground (arith, s a, contains-remove_key a code k.pressed)

  -- A press that reports no error has put the key down for the kernel.
  pub key_down_lem :
      (k : VirtualKeyboard) (code : ℕ)
      → (key_down answer k code).1 ≡ none
      → is_down code (key_down answer k code).0.fd.written ≡ true
  unfolding key_down is_down
  key_down_lem k code e = ground arith
