-- ===== src/Network/Handler/Cursor/Kept.antt =====
-- What every call of the mouse keeps, the mouse half of internal/network/handler.go keeps.
use wayland_without_borders.Prelude.{◌≡◌, true, ℕ, none, some, GoError, both_branches, refl}
use wayland_without_borders.Prelude.Int.{ℤ, eqb_ℤ, pos}
use wayland_without_borders.Prelude.Float.{Float64}
use wayland_without_borders.Protocol.Packet.{MouseData}
use wayland_without_borders.Input.Keymap.Registered.{contains}
use wayland_without_borders.Input.Codes.{btn_left, btn_right, btn_middle}
use wayland_without_borders.Input.Uinput.Setup.{mouse_buttons}
use wayland_without_borders.Network.Devices.{MouseDevice}
use wayland_without_borders.Network.Handler.Cursor.{
  CursorState, handle_mouse, move_inbound, tracked, after_move, x_button, notches,
}

module _ {ℓ} (fl : Float64) (md : MouseDevice) (P : md.State → Type ℓ)
    (move : (m : md.State) (x y : ℤ) → P m → P (md.move_to m x y).0)
    (down : (m : md.State) (b : ℕ)
      → contains b mouse_buttons ≡ true
      → P m
      → P (md.button_down m b).0)
    (up : (m : md.State) (b : ℕ) → contains b mouse_buttons ≡ true → P m → P (md.button_up m b).0)
    (wheel : (m : md.State) (n : ℤ) → P m → P (md.wheel m n).0)
    (h_wheel : (m : md.State) (n : ℤ) → P m → P (md.h_wheel m n).0) where
  abbrev MouseIsKept : CursorState md.State → Type ℓ
  MouseIsKept s = P s.mouse

  after_move_keeps :
      (button : md.State → md.State × GoError) (r : CursorState md.State × GoError)
      → ((m : md.State) → P m → P (button m).0)
      → MouseIsKept r.0
      → MouseIsKept (after_move fl md button r)
  after_move_keeps button (s, none) k h = k s.mouse h
  after_move_keeps button (s, some e) k h = h

  x_button_good : (n : ℤ) → contains (x_button n) mouse_buttons ≡ true
  unfolding x_button
  x_button_good n =
      both_branches (λ (b : ℕ). contains b mouse_buttons ≡ true) (eqb_ℤ n (pos 2)) refl refl

  pub handle_mouse_keeps :
      (mult : fl.F) (s : CursorState md.State) (mp : MouseData)
      → P s.mouse
      → P (handle_mouse fl md mult s mp).mouse
  unfolding handle_mouse move_inbound tracked
  handle_mouse_keeps mult s mp h = both_branches MouseIsKept _ moved (
      both_branches MouseIsKept _ (press btn_left refl) (
        both_branches MouseIsKept _ (lift btn_left refl) (
          both_branches MouseIsKept _ (press btn_right refl) (
            both_branches MouseIsKept _ (lift btn_right refl) (
              both_branches MouseIsKept _ (press btn_middle refl) (
                both_branches MouseIsKept _ (lift btn_middle refl) (
                  both_branches MouseIsKept _
                    (press (x_button mp.wheel_delta) (x_button_good mp.wheel_delta))
                    (both_branches MouseIsKept _
                      (lift (x_button mp.wheel_delta) (x_button_good mp.wheel_delta))
                      (both_branches MouseIsKept _ (wheel s.mouse (notches mp.wheel_delta) h) (
                        both_branches MouseIsKept _ (h_wheel s.mouse (notches mp.wheel_delta) h)
                          h))))))))))
    where
      moved : MouseIsKept (move_inbound fl md mult s mp.x mp.y).0
      moved = move s.mouse _ _ h

      press :
          (b : ℕ)
          → contains b mouse_buttons ≡ true
          → MouseIsKept
              (after_move fl md (λ m. md.button_down m b) (move_inbound fl md mult s mp.x mp.y))
      press b g = after_move_keeps (λ m. md.button_down m b) _ (λ m. down m b g) moved

      lift :
          (b : ℕ)
          → contains b mouse_buttons ≡ true
          → MouseIsKept
              (after_move fl md (λ m. md.button_up m b) (move_inbound fl md mult s mp.x mp.y))
      lift b g = after_move_keeps (λ m. md.button_up m b) _ (λ m. up m b g) moved
