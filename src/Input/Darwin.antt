-- ===== src/Input/Darwin.antt =====
-- internal/input/coregraphics.go: the virtual keyboard of the macOS port, and its key table.
-- `answer n` is what the n-th call of CoreGraphics returns: `none` if the event is posted.
pub mod Codes
pub mod Keymap
pub mod Known
pub mod Held
use wayland_without_borders.Prelude.{
  ℕ, suc, ◌≡◌, Bool, true, false, Option, none, some, List, [], ◌∷◌, ◌==◌, if◌then◌else◌, GoError,
  ◌||◌, Result, ok, err,
}
use wayland_without_borders.Prelude.Int.{ℤ, pos}
use wayland_without_borders.Prelude.Float.{Float64}
use wayland_without_borders.Input.Codes.{btn_left, btn_right, btn_middle}
use wayland_without_borders.Input.Uinput.{add_key, remove_key}

-- The kinds of CoreGraphics' mouse events, and its buttons.
pub data MouseKind : Type 0 where
  mouse_moved left_down left_up right_down right_up other_down other_up : MouseKind

pub data MouseButton : Type 0 where
  left right center : MouseButton

-- Events posted for the system, the position as the program computes it.
pub data Posted (F : Type 0) : Type 0 where
  mouse_event : MouseKind → F → F → MouseButton → Posted F
  key_event : ℕ → Bool → Posted F
  scroll_event : ℤ → Posted F

-- The events that were posted, the last one first, and how often the system was asked.
pub record Tap (F : Type 0) : Type 0 where
  pub posted : List (Posted F)
  pub calls : ℕ

pub record VirtualMouse (F : Type 0) : Type 0 where
  pub tap : Tap F
  pub screen_w : F
  pub screen_h : F
  pub last_x : F
  pub last_y : F

pub record VirtualKeyboard (F : Type 0) : Type 0 where
  pub tap : Tap F
  pub pressed : List ℕ

pub data DarwinError : Type 0 where
  no_display_dimensions unknown_button not_posted : DarwinError

-- `if ... && firstErr == nil { firstErr = ... }`
abbrev pub first_error : Option DarwinError → Bool → Option DarwinError
first_error none true = none
first_error none false = some not_posted
first_error (some e) fine = some e

-- `switch button` of `buttonEvent`, with the kinds of a press and of a release.
unfoldable pub button_kinds : ℕ → Option (MouseKind × MouseKind × MouseButton)
button_kinds button =
    if button == btn_left
    then some (left_down, left_up, left)
    else if button == btn_right
    then some (right_down, right_up, right)
    else if button == btn_middle
    then some (other_down, other_up, center)
    else none

module _ {F : Type 0} (answer : ℕ → GoError) where
  -- `postMouseEvent`, `postKeyEvent` and `postScrollEvent`: an answer that is not 0 is an error.
  unfoldable pub post : Posted F → Tap F → Tap F × Bool
  post e t = elim (answer t.calls) [
    | none ↦ (record { posted = e ∷ t.posted; calls = suc t.calls }, true)
    | some n ↦ (record t { calls = suc t.calls }, false)
  ]

  -- The map is changed only behind an event that was posted.
  unfoldable pub after_post :
      VirtualKeyboard F → (List ℕ → List ℕ) → Tap F × Bool → VirtualKeyboard F × Option DarwinError
  after_post k change (t, true) = (record { tap = t; pressed = change k.pressed }, none)
  after_post k change (t, false) = (record k { tap = t }, some not_posted)

  unfoldable pub key_down : VirtualKeyboard F → ℕ → VirtualKeyboard F × Option DarwinError
  unfolding post after_post add_key
  key_down k code = after_post k (add_key code) (post (key_event code true) k.tap)

  unfoldable pub key_up : VirtualKeyboard F → ℕ → VirtualKeyboard F × Option DarwinError
  unfolding post after_post remove_key
  key_up k code = after_post k (remove_key code) (post (key_event code false) k.tap)

  unfoldable pub release_loop : List ℕ → Tap F → Option DarwinError → Tap F × Option DarwinError
  unfolding post
  release_loop [] t first = (t, first)
  release_loop (code ∷ codes) t first =
      let (t', fine) = post (key_event code false) t in
      release_loop codes t' (first_error first fine)

  -- `pick` is the order in which Go ranges over the map.
  unfoldable pub release_all :
      (List ℕ → List ℕ) → VirtualKeyboard F → VirtualKeyboard F × Option DarwinError
  unfolding release_loop
  release_all pick k =
      let (t, e) = release_loop (pick k.pressed) k.tap none in (record { tap = t; pressed = [] }, e)

  abbrev pub posted_mouse : VirtualMouse F → Tap F × Bool → VirtualMouse F × Option DarwinError
  posted_mouse m (t, true) = (record m { tap = t }, none)
  posted_mouse m (t, false) = (record m { tap = t }, some not_posted)

  unfoldable pub button_event : VirtualMouse F → ℕ → Bool → VirtualMouse F × Option DarwinError
  unfolding post button_kinds
  button_event m button down = elim (button_kinds button) [
    | none ↦ (m, some unknown_button)
    | some (press, lift, b) ↦
        posted_mouse m (post (mouse_event (if down then press else lift) m.last_x m.last_y b) m.tap)
  ]

  unfoldable pub button_down : VirtualMouse F → ℕ → VirtualMouse F × Option DarwinError
  unfolding button_event
  button_down m button = button_event m button true

  unfoldable pub button_up : VirtualMouse F → ℕ → VirtualMouse F × Option DarwinError
  unfolding button_event
  button_up m button = button_event m button false

  unfoldable pub wheel : VirtualMouse F → ℤ → VirtualMouse F × Option DarwinError
  unfolding post
  wheel m delta = posted_mouse m (post (scroll_event delta) m.tap)

module _ (fl : Float64) (answer : ℕ → GoError) where
  -- `float64(x) / 65535.0 * m.screenW`
  abbrev pub on_screen : ℤ → fl.F → fl.F
  on_screen x size = fl.mul (fl.div (fl.of_int x) (fl.of_int (pos 65535))) size

  unfoldable pub move_to : VirtualMouse fl.F → ℤ → ℤ → VirtualMouse fl.F × Option DarwinError
  unfolding post
  move_to m x y =
      let px = on_screen x m.screen_w in
      let py = on_screen y m.screen_h in
      posted_mouse answer (record m { last_x = px; last_y = py })
        (post answer (mouse_event mouse_moved px py left) m.tap)

  -- The size of the main display is an argument.
  unfoldable pub create_virtual_mouse : ℕ → ℕ → Result DarwinError (VirtualMouse fl.F)
  create_virtual_mouse width height =
      let w = fl.of_int (pos width) in
      let h = fl.of_int (pos height) in
      if fl.eq w (fl.of_int (pos 0)) || fl.eq h (fl.of_int (pos 0))
      then err no_display_dimensions
      else ok (record {
        tap = record { posted = []; calls = 0 };
        screen_w = w;
        screen_h = h;
        last_x = fl.of_int (pos 0);
        last_y = fl.of_int (pos 0);
      })

abbrev pub create_virtual_keyboard : {F : Type 0} → VirtualKeyboard F
create_virtual_keyboard = record { tap = record { posted = []; calls = 0 }; pressed = [] }
