-- ===== src/Capture/Motion/Space.antt =====
-- internal/capture/capture_linux.go: the virtual cursor and the coordinates that go to the remote
-- machine, for the methods that the Wayland driver calls.
use wayland_without_borders.Prelude.{
  ℕ, Bool, true, ◌&&◌, ◌||◌, not, Option, none, some, List, ◌==◌, arith, leb, both_branches,
}
use wayland_without_borders.Prelude.Bytes.{All}
use wayland_without_borders.Prelude.Int.{ℤ, pos, negsuc, ◌≤ℤ◌, eqb_ℤ}
use wayland_without_borders.Prelude.Float.{Float64}
use wayland_without_borders.Input.Codes.{btn_left, btn_extra}
use wayland_without_borders.Network.Handler.Cursor.{clamp65535}
use wayland_without_borders.Capture.{
  Output, send, warp, return_local, enable_xinput, disable_xinput, Capturer,
}
use wayland_without_borders.Capture.Control.{enabled, activated, set_active, notify_remote_switch}
use wayland_without_borders.Capture.Motion.{
  in_grace, send_mouse, clamp_remote, add_motion, parked, after_motion, handle_rel, feed_motion,
  feed_wheel, wheel_sent, switches_back, return_armed,
}
use wayland_without_borders.Capture.Events.{
  InputEvent, tracked, is_hotkey, button_sent, key_sent, handle_button, forward_key, handle_key,
  handle_event,
}

abbrev pub InGrid : ℤ → Type 0
InGrid z = (pos 0 ≤ℤ z) × (z ≤ℤ pos 65535)

-- The coordinates in a packet are on the grid of the wire.
abbrev pub SentInGrid : Output → Type 0
SentInGrid (send p) = InGrid p.mouse.x × InGrid p.mouse.y
SentInGrid (return_local x y) = Unit
SentInGrid (warp x y) = Unit
SentInGrid (enable_xinput ids) = Unit
SentInGrid (disable_xinput ids) = Unit

-- The virtual cursor is on the grid, and so is all that was sent.
abbrev pub IsOnGrid : {F : Type 0} → Capturer F → Type 0
IsOnGrid c = InGrid c.remote_x × (InGrid c.remote_y × All SentInGrid c.outputs)

zero_InGrid : InGrid (pos 0) × InGrid (pos 0)
zero_InGrid = ((omega arith, omega arith), (omega arith, omega arith))

pub clamp65535-InGrid : (z : ℤ) → InGrid (clamp65535 z)
unfolding clamp65535
clamp65535-InGrid (pos n) = ground arith
clamp65535-InGrid (negsuc n) = ground arith

module _ {F : Type 0} where
  pub send_mouse-IsOnGrid :
      (c : Capturer F) (delta : ℤ) (flags : ℕ)
      → IsOnGrid c
      → IsOnGrid (send_mouse c.remote_x c.remote_y delta flags c)
  unfolding send_mouse
  send_mouse-IsOnGrid c delta flags (gx, (gy, sent)) = (gx, (gy, ((gx, gy), sent)))

  enabled-IsOnGrid : (ids : List ℕ) (c : Capturer F) → IsOnGrid c → IsOnGrid (enabled ids c)
  unfolding enabled
  enabled-IsOnGrid ids c (gx, (gy, sent)) = (gx, (gy, (tt, sent)))

  activated-IsOnGrid :
      (now : ℕ) (b : Bool) (c : Capturer F) → IsOnGrid c → IsOnGrid (activated now b c)
  activated-IsOnGrid now b c good = both_branches IsOnGrid (b && not c.active) good good

  pub set_active-IsOnGrid :
      (now : ℕ) (ids : List ℕ) (b : Bool) (c : Capturer F)
      → IsOnGrid c
      → IsOnGrid (set_active now ids b c)
  unfolding set_active
  set_active-IsOnGrid now ids b c good =
      let still = activated-IsOnGrid now b c good in
      both_branches IsOnGrid (b && not c.active) (enabled-IsOnGrid ids _ still) still

  pub notify_remote_switch-IsOnGrid :
      (c : Capturer F) → IsOnGrid c → IsOnGrid (notify_remote_switch c)
  unfolding notify_remote_switch
  notify_remote_switch-IsOnGrid c (gx, (gy, sent)) = (gx, (gy, (zero_InGrid, sent)))

  wheel_sent-IsOnGrid :
      (delta : ℤ) (flags : ℕ) (c : Capturer F) → IsOnGrid c → IsOnGrid (wheel_sent delta flags c)
  wheel_sent-IsOnGrid delta flags c good =
      both_branches IsOnGrid (eqb_ℤ delta (pos 0)) good (send_mouse-IsOnGrid c delta flags good)

  pub feed_wheel-IsOnGrid : (v h : ℤ) (c : Capturer F) → IsOnGrid c → IsOnGrid (feed_wheel v h c)
  unfolding feed_wheel
  feed_wheel-IsOnGrid v h c good =
      both_branches IsOnGrid c.active good
        (wheel_sent-IsOnGrid h _ _ (wheel_sent-IsOnGrid v _ c good))

  button_sent-IsOnGrid :
      (o : Option (ℕ × ℤ)) (c : Capturer F) → IsOnGrid c → IsOnGrid (button_sent o c)
  button_sent-IsOnGrid none c good = good
  button_sent-IsOnGrid (some fw) c good = send_mouse-IsOnGrid c fw.1 fw.0 good

  key_sent-IsOnGrid :
      (o : Option ℤ) (value : ℤ) (c : Capturer F) → IsOnGrid c → IsOnGrid (key_sent o value c)
  key_sent-IsOnGrid none value c good = good
  key_sent-IsOnGrid (some vk) value c (gx, (gy, sent)) = (gx, (gy, (zero_InGrid, sent)))

  handle_button-IsOnGrid :
      (code : ℕ) (value : ℤ) (c : Capturer F) → IsOnGrid c → IsOnGrid (handle_button code value c)
  unfolding handle_button
  handle_button-IsOnGrid code value c good =
      both_branches IsOnGrid (c.active || (not (eqb_ℤ value (pos 0)) && not (eqb_ℤ value (pos 1))))
        good (button_sent-IsOnGrid _ c good)

  forward_key-IsOnGrid :
      (order : List (ℕ × ℕ)) (code : ℕ) (value : ℤ) (c : Capturer F)
      → IsOnGrid c
      → IsOnGrid (forward_key order code value c)
  unfolding forward_key
  forward_key-IsOnGrid order code value c good =
      both_branches IsOnGrid c.active good (key_sent-IsOnGrid _ value c good)

  handle_key-IsOnGrid :
      (order : List (ℕ × ℕ)) (now : ℕ) (ids : List ℕ) (code : ℕ) (value : ℤ) (c : Capturer F)
      → IsOnGrid c
      → IsOnGrid (handle_key order now ids code value c)
  unfolding handle_key tracked
  handle_key-IsOnGrid order now ids code value c good =
      both_branches IsOnGrid (is_hotkey code value (tracked code value c) && not c.active)
        (set_active-IsOnGrid now ids true _ good)
        (both_branches IsOnGrid (leb btn_left code && leb code btn_extra)
          (handle_button-IsOnGrid code value _ good) (forward_key-IsOnGrid order code value _ good))

module _ (fl : Float64) where
  open fl use {F, of_int, mul, le, to_i32}

  parked-IsOnGrid :
      (p : ℤ × ℤ) (ids : List ℕ) (c : Capturer F) → IsOnGrid c → IsOnGrid (parked fl p ids c)
  parked-IsOnGrid p ids c (gx, (gy, sent)) =
      both_branches IsOnGrid c.has_return_local (gx, (gy, (tt, sent)))
        (enabled-IsOnGrid ids _ (gx, (gy, (tt, sent))))

  after_motion-IsOnGrid :
      (now : ℕ) (ids : List ℕ) (c : Capturer F) → IsOnGrid c → IsOnGrid (after_motion fl now ids c)
  unfolding after_motion
  after_motion-IsOnGrid now ids c good =
      both_branches IsOnGrid (switches_back c) (parked-IsOnGrid _ ids _ good)
        (send_mouse-IsOnGrid (record c { can_return = return_armed c }) (pos 0) _ good)

  -- Whatever the sum overflows to, the cursor is put back on the grid.
  add_motion-IsOnGrid : (dx dy : F) (c : Capturer F) → IsOnGrid c → IsOnGrid (add_motion fl dx dy c)
  unfolding add_motion clamp_remote
  add_motion-IsOnGrid dx dy c (gx, (gy, sent)) = (clamp65535-InGrid _, (clamp65535-InGrid _, sent))

  handle_rel-IsOnGrid :
      (now : ℕ) (ids : List ℕ) (code : ℕ) (value : ℤ) (c : Capturer F)
      → IsOnGrid c
      → IsOnGrid (handle_rel fl now ids code value c)
  unfolding handle_rel
  handle_rel-IsOnGrid now ids code value c good =
      both_branches IsOnGrid (code == 0x00)
        (after_motion-IsOnGrid now ids _ (add_motion-IsOnGrid _ _ c good))
        (both_branches IsOnGrid (code == 0x01)
          (after_motion-IsOnGrid now ids _ (add_motion-IsOnGrid _ _ c good))
          (both_branches IsOnGrid (code == 0x08) (send_mouse-IsOnGrid c _ _ good)
            (both_branches IsOnGrid (code == 0x06) (send_mouse-IsOnGrid c _ _ good) good)))

  pub feed_motion-IsOnGrid :
      (now : ℕ) (ids : List ℕ) (dx dy : F) (c : Capturer F)
      → IsOnGrid c
      → IsOnGrid (feed_motion fl now ids dx dy c)
  unfolding feed_motion
  feed_motion-IsOnGrid now ids dx dy c good =
      both_branches IsOnGrid (c.active || in_grace now c.switch_sent) good
        (after_motion-IsOnGrid now ids _ (add_motion-IsOnGrid _ _ c good))

  pub handle_event-IsOnGrid :
      (order : List (ℕ × ℕ)) (now : ℕ) (ids : List ℕ) (e : InputEvent) (c : Capturer F)
      → IsOnGrid c
      → IsOnGrid (handle_event fl order now ids e c)
  unfolding handle_event
  handle_event-IsOnGrid order now ids e c good =
      both_branches IsOnGrid (c.active || in_grace now c.switch_sent) good (
        both_branches IsOnGrid (e.typ == 0x02) (handle_rel-IsOnGrid now ids e.code e.value c good) (
          both_branches IsOnGrid (e.typ == 0x01)
            (handle_key-IsOnGrid order now ids e.code e.value c good) good))
