-- ===== src/Capture/Events/Buttons.antt =====
-- The mouse buttons that internal/capture/capture_linux.go forwards, at a machine that handles them
-- with internal/network/handler.go.
use wayland_without_borders.Prelude.{ℕ, ◌≡◌, Bool, true, false, some, ◌==◌, if◌then◌else◌, arith}
use wayland_without_borders.Prelude.Int.{ℤ, pos}
use wayland_without_borders.Prelude.Float.{Float64}
use wayland_without_borders.Prelude.Outcome.{GoError}
use wayland_without_borders.Input.Codes.{btn_side, btn_extra}
use wayland_without_borders.Network.Devices.{MouseDevice}
use wayland_without_borders.Network.Handler.Cursor.{
  CursorState, x_button, move_inbound, after_move, handle_mouse,
}
use wayland_without_borders.Capture.Events.{pick, button_flags}

module _ (fl : Float64) (md : MouseDevice) where
  open fl use {F}
  open md use {State, button_down, button_up}

  -- A press or a release of a button of the device.
  abbrev pub used : Bool → ℕ → State → State × GoError
  used true code m = button_down m code
  used false code m = button_up m code

  -- The packet of a button, handled, moves the cursor and uses that button, except that the second
  -- side button (forward) arrives as the first one (back).
  pub handle_mouse-button_flags :
      (mult : F) (s : CursorState State) (x y : ℤ) (down : Bool) (code : ℕ) (fw : ℕ × ℤ)
      → button_flags down code ≡ some fw
      → handle_mouse fl md mult s (record { x = x; y = y; wheel_delta = fw.1; dw_flags = pos fw.0 })
        ≡ after_move fl md
            (used down (if code == btn_extra then btn_side else code))
            (move_inbound fl md mult s x y)
  unfolding button_flags handle_mouse pick x_button
  handle_mouse-button_flags mult s x y true code fw e = ground arith
  handle_mouse-button_flags mult s x y false code fw e = ground arith
