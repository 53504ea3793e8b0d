-- ===== src/Capture/Events/Ownership.antt =====
-- Who owns the cursor, as an abstract machine, and the methods of internal/capture/capture_linux.go
-- as a refinement of it.
pub mod Moving
pub mod Pressing
pub mod Polling
pub mod Runs
use wayland_without_borders.Prelude.{
  ℕ, zero, suc, ◌+◌, ◌≤◌, ◌≡◌, refl, sym, ap, subst, ◌∙◌, Bool, true, false, ◌&&◌, ◌||◌, not,
  Option, none, some, List, [], ◌∷◌, map, ◌==◌, if◌then◌else◌, arith, Bool-cases, inl, inr,
  both_branches, leb,
}
use wayland_without_borders.Prelude.Int.{
  ℤ, pos, negsuc, ◌-ℤ◌, ◌≤ℤ◌, IsI32, leb_ℤ, ltb_ℤ, eqb_ℤ, wrap32, wrap32_id,
}
use wayland_without_borders.Prelude.Float.{Float64}
use wayland_without_borders.Prelude.Text.{Text, bytes_of, text_eq}
use wayland_without_borders.Input.Codes.{btn_left, btn_extra}
use wayland_without_borders.Network.Handler.Cursor.{wm_mousemove, wm_mousewheel}
use wayland_without_borders.Capture.{Side, right, top, bottom, left, side_of, Capturer}
use wayland_without_borders.Capture.Control.{
  enabled, set_active, enter_remote_edge, notify_remote_switch,
}
use wayland_without_borders.Capture.Motion.{
  in_grace, send_mouse, clamp_remote, add_motion, after_motion, handle_rel, feed_motion, feed_wheel,
  wheel_sent, moved_away, at_return_edge, return_armed, switches_back, parked, returned,
  local_reentry,
}
use wayland_without_borders.Capture.Events.{
  InputEvent, tracked, is_hotkey, button_sent, key_sent, handle_button, forward_key, handle_key,
  away_from_edge, at_edge, too_soon, burst, handle_event, cross, poll_at, poll_cursor_edge,
}

-- Who owns the cursor, and whether a crossing (`canSwitch`) or a return (`canReturn`) is armed.
pub data Owner : Type 0 where
  local remote : Bool → Owner

pub data Cause : Type 0 where
  polls moves presses enters activates : Cause

-- The changes that are allowed. A cursor that came back does not leave at the poll that arms the
-- crossing, and one that left does not come back by the motion that arms the return.
pub data Change : Cause → Owner → Owner → Type 0 where
  stay : {cause : Cause} {who : Owner} → Change cause who who
  arm_crossing : Change polls (local false) (local true)
  leave : Change polls (local true) (remote false)
  arm_return : Change moves (remote false) (remote true)
  come_back : Change moves (remote true) (local false)
  force_back : {armed : Bool} → Change presses (remote armed) (local false)
  cross_barrier : {who : Owner} → Change enters who (remote false)
  hand_back : {armed : Bool} → Change activates (remote armed) (local false)

abbrev pub owner : {F : Type 0} → Capturer F → Owner
owner c = if c.active then local c.can_switch else remote c.can_return

-- What a call that `cause` stands for may do to a capturer: change the owner, not the screen.
abbrev pub Follows : {F : Type 0} → Cause → Capturer F → Capturer F → Type 0
Follows cause c d = Change cause (owner c) (owner d) × (d.width ≡ c.width)

abbrev pub same : {F : Type 0} {cause : Cause} (c : Capturer F) → Follows cause c c
same c = (stay, refl)
