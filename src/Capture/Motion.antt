-- ===== src/Capture/Motion.antt =====
-- internal/capture/capture_linux.go: relative motion and the wheel, while the remote machine has the
-- cursor. `now` is the time of a call, and `attached` what xinput lists then.
pub mod Space
use wayland_without_borders.Prelude.{
  ℕ, ◌+◌, ◌-◌, ◌*◌, Bool, true, false, ◌&&◌, ◌||◌, not, Option, none, some, List, [], ◌∷◌, ltb, leb,
  ◌==◌, if◌then◌else◌,
}
use wayland_without_borders.Prelude.Int.{ℤ, pos, ◌+ℤ◌, ◌-ℤ◌, ◌*ℤ◌, leb_ℤ, ltb_ℤ, eqb_ℤ, wrap32}
use wayland_without_borders.Prelude.Float.{Float64}
use wayland_without_borders.Prelude.Text.{Text}
use wayland_without_borders.Protocol.Types
use wayland_without_borders.Protocol.Packet.{Packet, new_packet}
use wayland_without_borders.Network.Handler.Cursor.{
  clamp65535, wm_mousemove, wm_mousewheel, wm_mousehwheel,
}
use wayland_without_borders.Capture.{
  norm_max, switch_margin, Side, right, top, bottom, left, side_of, Output, send, warp,
  return_local, Capturer,
}
use wayland_without_borders.Capture.Control.{enabled, inset_point}

-- `switchSent` is set and less than 100 ms ago.
unfoldable pub in_grace : ℕ → Option ℕ → Bool
in_grace now none = false
in_grace now (some sent) = ltb (now - sent) 100000000

-- `sendMouse` and `sendMouseLocked`
unfoldable pub send_mouse : {F : Type 0} → ℤ → ℤ → ℤ → ℕ → Capturer F → Capturer F
send_mouse x y wheel_delta flags c = record c {
  outputs =
      send (record (new_packet Types.mouse c.machine_id c.remote_id) {
        mouse = record { x = x; y = y; wheel_delta = wheel_delta; dw_flags = pos flags };
      })
      ∷ c.outputs;
}

-- `clampRemoteLocked`
unfoldable pub clamp_remote : {F : Type 0} → Capturer F → Capturer F
clamp_remote c = record c { remote_x = clamp65535 c.remote_x; remote_y = clamp65535 c.remote_y }

-- Whether the cursor has moved `switchMargin` away from the edge it would return through.
abbrev pub moved_away : Side → ℤ → ℤ → Bool
moved_away right x y = ltb_ℤ (pos switch_margin) x
moved_away top x y = ltb_ℤ y (pos (norm_max - switch_margin))
moved_away bottom x y = ltb_ℤ (pos switch_margin) y
moved_away left x y = ltb_ℤ x (pos (norm_max - switch_margin))

-- Whether the cursor is at that edge.
abbrev pub at_return_edge : Side → ℤ → ℤ → Bool
at_return_edge right x y = leb_ℤ x (pos 0)
at_return_edge top x y = leb_ℤ (pos (norm_max - 1)) y
at_return_edge bottom x y = leb_ℤ y (pos 0)
at_return_edge left x y = leb_ℤ (pos (norm_max - 1)) x

-- `canReturn` after the switch of `afterMotionLocked`.
abbrev pub return_armed : {F : Type 0} → Capturer F → Bool
return_armed c = c.can_return || moved_away (side_of c.active_edge) c.remote_x c.remote_y

-- `switchBack`
abbrev pub switches_back : {F : Type 0} → Capturer F → Bool
switches_back c = return_armed c && at_return_edge (side_of c.active_edge) c.remote_x c.remote_y

module _ (fl : Float64) where
  open fl use {F, of_int, add, sub, mul, div, trunc, to_i32}

  -- A size of the screen, at least 1.
  abbrev pub guarded : ℤ → ℤ
  guarded n = if leb_ℤ n (pos 0) then pos 1 else n

  -- `normPerPx`
  unfoldable pub norm_per_px : Capturer F → F × F
  norm_per_px c = (
    div (of_int (pos norm_max)) (of_int (guarded c.width)),
    div (of_int (pos norm_max)) (of_int (guarded c.height)),
  )

  -- `addMotionLocked`
  unfoldable pub add_motion : F → F → Capturer F → Capturer F
  add_motion dx_norm dy_norm c =
      let ax = add c.acc_x dx_norm in
      let ay = add c.acc_y dy_norm in
      clamp_remote (record c {
        acc_x = sub ax (trunc ax);
        acc_y = sub ay (trunc ay);
        remote_x = wrap32 (c.remote_x +ℤ to_i32 (trunc ax));
        remote_y = wrap32 (c.remote_y +ℤ to_i32 (trunc ay));
      })

  -- `localReentryLocked`
  unfoldable pub local_reentry : Capturer F → ℤ × ℤ
  local_reentry c =
      inset_point (side_of c.active_edge) (pos 100) c.width c.height
        (to_i32 (mul (div (of_int c.remote_x) (of_int (pos norm_max))) (of_int c.width)))
        (to_i32 (mul (div (of_int c.remote_y) (of_int (pos norm_max))) (of_int c.height)))

  -- The body of `if switchBack`, before the local cursor is moved.
  abbrev pub returned : ℕ → Capturer F → Capturer F
  returned now c = record c {
    active = true;
    switch_sent = none;
    last_activated = some now;
    can_switch = false;
  }

  -- Its rest: the portal's release, or xdotool and xinput.
  abbrev pub parked : ℤ × ℤ → List ℕ → Capturer F → Capturer F
  parked p attached c =
      if c.has_return_local
      then record c { outputs = return_local p.0 p.1 ∷ c.outputs }
      else enabled attached (record c { outputs = warp p.0 p.1 ∷ c.outputs })

  -- `afterMotionLocked`
  unfoldable pub after_motion : ℕ → List ℕ → Capturer F → Capturer F
  after_motion now attached c =
      let armed = record c { can_return = return_armed c } in
      if switches_back c
      then parked (local_reentry armed) attached (returned now armed)
      else send_mouse c.remote_x c.remote_y (pos 0) wm_mousemove armed

  -- `handleRel`
  unfoldable pub handle_rel : ℕ → List ℕ → ℕ → ℤ → Capturer F → Capturer F
  handle_rel now attached code value c =
      let npp = norm_per_px c in
      if code == 0x00
      then after_motion now attached
          (add_motion (mul (mul (of_int value) c.accel_mult) npp.0) (of_int (pos 0)) c)
      else if code == 0x01
      then after_motion now attached
          (add_motion (of_int (pos 0)) (mul (mul (of_int value) c.accel_mult) npp.1) c)
      else if code == 0x08
      then send_mouse c.remote_x c.remote_y (wrap32 (value *ℤ pos 120)) wm_mousewheel c
      else if code == 0x06
      then send_mouse c.remote_x c.remote_y (wrap32 (value *ℤ pos 120)) wm_mousehwheel c
      else c

  -- `FeedMotion`
  unfoldable pub feed_motion : ℕ → List ℕ → F → F → Capturer F → Capturer F
  feed_motion now attached dx dy c =
      if c.active || in_grace now c.switch_sent
      then c
      else let npp = norm_per_px c in
        after_motion now attached
          (add_motion (mul (mul dx c.accel_mult) npp.0) (mul (mul dy c.accel_mult) npp.1) c)

-- One of the two sends of `FeedWheel`.
abbrev pub wheel_sent : {F : Type 0} → ℤ → ℕ → Capturer F → Capturer F
wheel_sent delta flags c =
    if eqb_ℤ delta (pos 0) then c else send_mouse c.remote_x c.remote_y delta flags c

-- `FeedWheel`
unfoldable pub feed_wheel : {F : Type 0} → ℤ → ℤ → Capturer F → Capturer F
feed_wheel vertical horizontal c =
    if c.active
    then c
    else wheel_sent horizontal wm_mousehwheel (wheel_sent vertical wm_mousewheel c)
