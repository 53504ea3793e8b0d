-- ===== src/Examples/Capturing.antt =====
-- A capturer of a screen of 1920 by 1080 pixels, with floats that are integers
-- (internal/capture/capture_linux.go and internal/capture/portal_wayland.go).
use wayland_without_borders.Prelude.{
  ℕ, zero, suc, ◌≡◌, refl, true, false, none, some, List, [], ◌∷◌, map, arith,
}
use wayland_without_borders.Prelude.Int.{ℤ, pos, negsuc, leb_ℤ, ◌*ℤ◌, wrap32, to_u32, of_u32}
use wayland_without_borders.Prelude.Float.{integral_floats}
use wayland_without_borders.Prelude.Text.{bytes_of}
use wayland_without_borders.Protocol.Types
use wayland_without_borders.Protocol.Packet.{new_packet}
use wayland_without_borders.Input.Codes.{btn_side, btn_extra}
use wayland_without_borders.Network.Devices.{MouseDevice, virtual_keyboard, virtual_mouse}
use wayland_without_borders.Network.Handler.Keys.{flush_pending_ctrl}
use wayland_without_borders.Network.Handler.Cursor.{move_inbound, after_move, handle_mouse}
use wayland_without_borders.Network.Handler.{handle_packet}
use wayland_without_borders.Capture.{Capturer, enable_xinput}
use wayland_without_borders.Capture.Control.{
  merged, notify_remote_switch, accepts_activation, enter_remote_edge,
}
use wayland_without_borders.Capture.Motion.{in_grace, send_mouse}
use wayland_without_borders.Capture.Motion.Space.{InGrid}
use wayland_without_borders.Capture.Events.{
  button_flags, handle_event, poll_cursor_edge, pick, burst, cross, poll_at,
}
use wayland_without_borders.Capture.Events.Ownership.{owner}
use wayland_without_borders.Capture.Events.Ownership.Runs.{
  Call, poll_call, motion_call, cause_of, calls, Walk, calls-Walk,
}
use wayland_without_borders.Capture.Events.Hotkey.{right_press, events, hotkey_sticks}
use wayland_without_borders.Capture.Events.Bounce.{handle_packet-poll_cursor_edge}
use wayland_without_borders.Capture.Events.Buttons.{used, handle_mouse-button_flags}
use wayland_without_borders.Capture.Portal.{
  Portal, Activation, ei_motion, Step, activates, gate_opens, feeds, portal_steps,
}
use wayland_without_borders.Capture.Portal.Grid.{ScalesToGrid, IsOnWire, portal_steps-IsOnWire}
use wayland_without_borders.Examples.Handling.{takes, any_order, counter, resting, world}

abbrev here : Capturer ℤ
here = record {
  machine_id = 1;
  remote_id = 2;
  width = pos 1920;
  height = pos 1080;
  active = true;
  edge_side = bytes_of "left";
  last_switch = none;
  switch_sent = none;
  last_activated = none;
  remote_x = pos 0;
  remote_y = pos 0;
  acc_x = pos 0;
  acc_y = pos 0;
  active_edge = bytes_of "left";
  accel_mult = pos 2;
  edge_y = pos 0;
  can_switch = true;
  can_return = false;
  hotkey_ctrl = true;
  hotkey_alt = true;
  disabled_ids = [];
  has_return_local = false;
  outputs = [];
}

abbrev there : Capturer ℤ
there = record here { active = false }

unit_scales :
    (x : ℤ) → leb_ℤ (pos 0) x ≡ true → leb_ℤ x (pos 1) ≡ true → InGrid (wrap32 (x *ℤ pos 65535))
unfolding wrap32 ◌*ℤ◌ to_u32 of_u32
unit_scales (pos zero) lo hi = (omega arith, omega arith)
unit_scales (pos (suc zero)) lo hi = (omega arith, omega arith)
unit_scales (pos (suc (suc n))) lo hi = absurd (ground arith)
unit_scales (negsuc n) lo hi = absurd (ground arith)

integral_floats-ScalesToGrid : ScalesToGrid integral_floats
integral_floats-ScalesToGrid = record {
  int_number = λ z. ground arith;
  half_number = refl;
  fraction_number = λ x zone size h num. ground arith;
  less_total = λ x y nx ny h. ground arith;
  zero_le_one = refl;
  unit_scales = unit_scales;
}

abbrev Timed : Type 0
Timed = ℕ × (List ℕ × Call integral_floats [])

abbrev short_run : List Timed
short_run = (0, ([], poll_call (some (pos 0, pos 9)))) ∷ (1, ([], motion_call (pos 5) (pos 5))) ∷ []

calls-Walk_example :
    Walk
      (map (λ (m : Timed). cause_of integral_floats [] m.1.1) short_run)
      (owner here)
      (owner (calls integral_floats [] short_run here))
calls-Walk_example = calls-Walk integral_floats [] short_run here (omega arith) (omega arith)

hotkey_sticks_example :
    ((handle_event integral_floats [] 900000000 [] right_press (
        enter_remote_edge integral_floats 500000000 (bytes_of "left") (pos 0) (
          events integral_floats []
            ((6, ([], record { typ = 1; code = 29; value = pos 0 })) ∷ [])
            (handle_event integral_floats [] 5 [] right_press there)))).active
      ≡ true)
    × ((handle_event integral_floats [] 5 [] right_press there).outputs
        ≡ enable_xinput (merged [] []) ∷ [])
unfolding in_grace
hotkey_sticks_example =
    hotkey_sticks integral_floats [] 5 500000000 900000000 [] []
      ((6, ([], record { typ = 1; code = 29; value = pos 0 })) ∷ []) (bytes_of "left") (pos 0) there
      refl refl (refl, refl) refl

abbrev device : MouseDevice
device = virtual_mouse takes

left_at_poll : (poll_cursor_edge integral_floats 5 [] (some (pos 0, pos 9)) here).active ≡ false
unfolding poll_cursor_edge poll_at cross burst send_mouse notify_remote_switch
left_at_poll = refl

handle_packet-poll_cursor_edge_example :
    handle_packet integral_floats
      (virtual_keyboard takes any_order)
      device
      counter
      (record world {
        should_activate =
            some (
              accepts_activation
                (poll_cursor_edge integral_floats 5 [] (some (pos 0, pos 9)) here));
      })
      resting
      (new_packet Types.machine_switched 2 1)
    ≡ record resting {
      keys = (flush_pending_ctrl (virtual_keyboard takes any_order) resting.keys).0;
    }
handle_packet-poll_cursor_edge_example =
    handle_packet-poll_cursor_edge integral_floats (virtual_keyboard takes any_order) device counter
      5 [] (some (pos 0, pos 9)) here
      (record world {
        should_activate =
            some (
              accepts_activation
                (poll_cursor_edge integral_floats 5 [] (some (pos 0, pos 9)) here));
      })
      resting (new_packet Types.machine_switched 2 1) refl left_at_poll refl refl

handle_mouse-button_flags_example :
    handle_mouse integral_floats device
      (pos 1)
      resting.cursor
      (record { x = pos 3; y = pos 4; wheel_delta = pos 0x20000; dw_flags = pos 0x020B })
    ≡ after_move integral_floats device
        (used integral_floats device true btn_side)
        (move_inbound integral_floats device (pos 1) resting.cursor (pos 3) (pos 4))
unfolding button_flags pick
handle_mouse-button_flags_example =
    handle_mouse-button_flags integral_floats device (pos 1) resting.cursor (pos 3) (pos 4) true
      btn_extra (0x020B, pos 0x20000) refl

abbrev driver : Portal ℤ
driver = record {
  cap = record here { has_return_local = true };
  screen_w = pos 1920;
  screen_h = pos 1080;
  zone_x = pos 0;
  zone_y = pos 0;
  active_id = 0;
  scr_acc_x = pos 0;
  scr_acc_y = pos 0;
  want_mod = 4;
  cur_mods = 0;
  gates = [];
  stopped = false;
}

abbrev crossing : Activation ℤ
crossing = record {
  activation_id = some 3;
  barrier_id = some 2;
  cursor_position = some (pos 1920, pos 1);
}

abbrev steps : List (ℕ × (List ℕ × Step integral_floats))
steps =
    (0, ([], activates crossing))
    ∷ (80000000, ([], gate_opens))
    ∷ (300000000, ([], feeds (ei_motion (negsuc 900000) (pos 7))))
    ∷ []

portal_steps-IsOnWire_example :
    IsOnWire integral_floats (portal_steps integral_floats [] steps driver)
portal_steps-IsOnWire_example =
    portal_steps-IsOnWire integral_floats integral_floats-ScalesToGrid [] steps driver
      ((refl, refl), (tt, (tt, tt)))
      (((omega arith, omega arith), ((omega arith, omega arith), tt)), tt)
