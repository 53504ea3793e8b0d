-- ===== src/Capture/Events/Ownership/Pressing.antt =====
-- What keys, buttons, the wheel and activation change of the owner
-- (internal/capture/capture_linux.go).
use wayland_without_borders.Prelude.{
  ℕ, refl, Bool, true, false, ◌&&◌, not, Option, none, some, List, Bool-cases, inl, inr,
  both_branches, leb,
}
use wayland_without_borders.Prelude.Int.{ℤ, pos, eqb_ℤ}
use wayland_without_borders.Input.Codes.{btn_left, btn_extra}
use wayland_without_borders.Network.Handler.Cursor.{wm_mousewheel}
use wayland_without_borders.Capture.{Capturer}
use wayland_without_borders.Capture.Control.{enabled, set_active}
use wayland_without_borders.Capture.Motion.{send_mouse, feed_wheel, wheel_sent}
use wayland_without_borders.Capture.Events.{
  tracked, is_hotkey, button_sent, key_sent, handle_button, forward_key, handle_key,
}
use wayland_without_borders.Capture.Events.Ownership.{
  local, remote, Cause, moves, presses, Change, stay, force_back, Follows, same,
}

module _ {F : Type 0} where
  pub set_active-Follows :
      (cause : Cause) (now : ℕ) (ids : List ℕ) (c : Capturer F)
      → ((armed : Bool) → Change cause (remote armed) (local false))
      → Follows cause c (set_active now ids true c)
  unfolding set_active enabled
  set_active-Follows cause now ids c back = elim (Bool-cases c.active) [
    | inl h ↦ rw (h) (stay, refl)
    | inr h ↦ rw (h) (back c.can_return, refl)
  ]

  handle_button-Follows :
      (code : ℕ) (value : ℤ) (c : Capturer F) → Follows presses c (handle_button code value c)
  unfolding handle_button send_mouse
  handle_button-Follows code value c = both_branches (Follows presses c) _ (same c) (sent _)
    where
      sent : (o : Option (ℕ × ℤ)) → Follows presses c (button_sent o c)
      sent none = same c
      sent (some fw) = same c

  forward_key-Follows :
      (order : List (ℕ × ℕ)) (code : ℕ) (value : ℤ) (c : Capturer F)
      → Follows presses c (forward_key order code value c)
  unfolding forward_key
  forward_key-Follows order code value c = both_branches (Follows presses c) _ (same c) (sent _)
    where
      sent : (o : Option ℤ) → Follows presses c (key_sent o value c)
      sent none = same c
      sent (some vk) = same c

  pub handle_key-Follows :
      (order : List (ℕ × ℕ)) (now : ℕ) (ids : List ℕ) (code : ℕ) (value : ℤ) (c : Capturer F)
      → Follows presses c (handle_key order now ids code value c)
  unfolding handle_key tracked
  handle_key-Follows order now ids code value c =
      both_branches (Follows presses c)
        (is_hotkey code value (tracked code value c) && not (tracked code value c).active)
        (set_active-Follows presses now ids (tracked code value c) (λ armed. force_back))
        (both_branches (Follows presses c) (leb btn_left code && leb code btn_extra)
          (handle_button-Follows code value (tracked code value c))
          (forward_key-Follows order code value (tracked code value c)))

  pub feed_wheel-Follows : (v h : ℤ) (c : Capturer F) → Follows moves c (feed_wheel v h c)
  unfolding feed_wheel send_mouse
  feed_wheel-Follows v h c =
      both_branches (Follows moves c) c.active (same c)
        (once _ h (wheel_sent v wm_mousewheel c) (once _ v c (same c)))
    where
      once :
          (flags : ℕ) (delta : ℤ) (d : Capturer F)
          → Follows moves c d
          → Follows moves c (wheel_sent delta flags d)
      once flags delta d so_far =
          both_branches (Follows moves c) (eqb_ℤ delta (pos 0)) so_far so_far
