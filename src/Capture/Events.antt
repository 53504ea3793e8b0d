-- ===== src/Capture/Events.antt =====
-- internal/capture/capture_linux.go: the events of the input devices, and the polls of the cursor.
-- A value of evdev is 1 for a press, 0 for a release and 2 for a repeat. `order` is the order in
-- which Go built the reverse key map.
pub mod Monitor
pub mod Ownership
pub mod Hotkey
pub mod Bounce
pub mod Buttons
use wayland_without_borders.Prelude.{
  ℕ, zero, suc, ◌+◌, ◌-◌, ◌*◌, Bool, true, false, ◌&&◌, ◌||◌, not, Option, none, some, List, [],
  ◌∷◌, ltb, leb, ◌==◌, if◌then◌else◌, get_or,
}
use wayland_without_borders.Prelude.Int.{
  ℤ, pos, ◌+ℤ◌, ◌-ℤ◌, leb_ℤ, ltb_ℤ, eqb_ℤ, wrap32, of_u32, of_u64,
}
use wayland_without_borders.Prelude.Bytes.{u32_at}
use wayland_without_borders.Prelude.Float.{Float64}
use wayland_without_borders.Prelude.Text.{Text, bytes_of, text_eq}
use wayland_without_borders.Protocol.Types
use wayland_without_borders.Protocol.Packet.{Packet, new_packet}
use wayland_without_borders.Input.Codes.{btn_left, btn_right, btn_middle, btn_side, btn_extra}
use wayland_without_borders.Input.Keymap.Reverse.{key_code_to_vk}
use wayland_without_borders.Network.Handler.Keys.{llkhf_up}
use wayland_without_borders.Network.Handler.Cursor.{
  wm_mousemove, wm_lbuttondown, wm_lbuttonup, wm_rbuttondown, wm_rbuttonup, wm_mbuttondown,
  wm_mbuttonup, wm_xbuttondown, wm_xbuttonup,
}
use wayland_without_borders.Capture.{
  norm_max, switch_margin, Output, send, disable_xinput, Capturer,
}
use wayland_without_borders.Capture.Control.{set_active, notify_remote_switch}
use wayland_without_borders.Capture.Motion.{in_grace, send_mouse, handle_rel}

pub record InputEvent : Type 0 where
  pub typ : ℕ
  pub code : ℕ
  pub value : ℤ

-- `pick`
unfoldable pub pick : Bool → ℕ → ℕ → ℕ
pick cond down up = if cond then down else up

-- The flags and the wheel field that `handleKey` sends for a button.
unfoldable pub button_flags : Bool → ℕ → Option (ℕ × ℤ)
unfolding pick
button_flags down code =
    if code == btn_left
    then some (pick down wm_lbuttondown wm_lbuttonup, pos 0)
    else if code == btn_right
    then some (pick down wm_rbuttondown wm_rbuttonup, pos 0)
    else if code == btn_middle
    then some (pick down wm_mbuttondown wm_mbuttonup, pos 0)
    else if code == btn_side
    then some (pick down wm_xbuttondown wm_xbuttonup, pos 0x10000)
    else if code == btn_extra
    then some (pick down wm_xbuttondown wm_xbuttonup, pos 0x20000)
    else none

-- The state of Ctrl and Alt, which `handleKey` follows first.
unfoldable pub tracked : {F : Type 0} → ℕ → ℤ → Capturer F → Capturer F
tracked code value c = record c {
  hotkey_ctrl = if code == 29 || code == 97 then eqb_ℤ value (pos 1) else c.hotkey_ctrl;
  hotkey_alt = if code == 56 || code == 100 then eqb_ℤ value (pos 1) else c.hotkey_alt;
}

-- Whether a key completes Ctrl+Alt+Right.
abbrev pub is_hotkey : {F : Type 0} → ℕ → ℤ → Capturer F → Bool
is_hotkey code value c = code == 106 && eqb_ℤ value (pos 1) && c.hotkey_ctrl && c.hotkey_alt

-- The send of a button, at the virtual cursor.
abbrev pub button_sent : {F : Type 0} → Option (ℕ × ℤ) → Capturer F → Capturer F
button_sent none c = c
button_sent (some fw) c = send_mouse c.remote_x c.remote_y fw.1 fw.0 c

-- The mouse buttons in `handleKey`.
unfoldable pub handle_button : {F : Type 0} → ℕ → ℤ → Capturer F → Capturer F
handle_button code value c =
    if c.active || (not (eqb_ℤ value (pos 0)) && not (eqb_ℤ value (pos 1)))
    then c
    else button_sent (button_flags (eqb_ℤ value (pos 1)) code) c

-- The send of a key that has a virtual key.
abbrev pub key_sent : {F : Type 0} → Option ℤ → ℤ → Capturer F → Capturer F
key_sent none value c = c
key_sent (some vk) value c = record c {
  outputs =
      send (record (new_packet Types.keyboard c.machine_id c.remote_id) {
        keyboard = record {
          date_time = pos 0;
          w_vk = vk;
          dw_flags = if eqb_ℤ value (pos 0) then pos llkhf_up else pos 0;
        };
      })
      ∷ c.outputs;
}

-- The keyboard in `handleKey`.
unfoldable pub forward_key : {F : Type 0} → List (ℕ × ℕ) → ℕ → ℤ → Capturer F → Capturer F
forward_key order code value c =
    if c.active then c else key_sent (key_code_to_vk order code) value c

-- `handleKey`
unfoldable pub handle_key :
    {F : Type 0} → List (ℕ × ℕ) → ℕ → List ℕ → ℕ → ℤ → Capturer F → Capturer F
handle_key order now attached code value c =
    let t = tracked code value c in
    if is_hotkey code value t && not t.active
    then set_active now attached true t
    else if leb btn_left code && leb code btn_extra
    then handle_button code value t
    else forward_key order code value t

-- `parseEvent`, less the time stamp, which no one reads.
unfoldable pub parse_event : List ℕ → InputEvent
parse_event buf = record {
  typ = get_or buf 16 0 + 256 * get_or buf 17 0;
  code = get_or buf 18 0 + 256 * get_or buf 19 0;
  value = of_u32 (u32_at 20 buf);
}

-- Whether the cursor is away from the edge, where `edgeZone` is 20 pixels.
abbrev pub away_from_edge : {F : Type 0} → ℤ → Capturer F → Bool
away_from_edge x c =
    if text_eq c.edge_side (bytes_of "left")
    then ltb_ℤ (pos 20) x
    else if text_eq c.edge_side (bytes_of "right")
    then ltb_ℤ x (wrap32 (c.width -ℤ pos 20))
    else false

-- Whether the cursor is at the edge.
abbrev pub at_edge : {F : Type 0} → ℤ → Capturer F → Bool
at_edge x c =
    if text_eq c.edge_side (bytes_of "left")
    then leb_ℤ x (pos 1)
    else if text_eq c.edge_side (bytes_of "right")
    then leb_ℤ (wrap32 (c.width -ℤ pos 1)) x
    else false

-- `now.Sub(c.lastSwitch) < 100*time.Millisecond`
abbrev pub too_soon : ℕ → Option ℕ → Bool
too_soon now none = false
too_soon now (some last) = ltb (now - last) 100000000

-- The moves that a goroutine sends at the entry position.
unfoldable pub burst : {F : Type 0} → ℕ → ℤ → ℤ → Capturer F → Capturer F
burst zero x y c = c
burst (suc n) x y c = burst n x y (send_mouse x y (pos 0) wm_mousemove c)

module _ (fl : Float64) where
  open fl use {F, of_int, mul, div, to_i32}

  -- `handleEvent`
  unfoldable pub handle_event : List (ℕ × ℕ) → ℕ → List ℕ → InputEvent → Capturer F → Capturer F
  handle_event order now attached e c =
      if c.active || in_grace now c.switch_sent
      then c
      else if e.typ == 0x02
      then handle_rel fl now attached e.code e.value c
      else if e.typ == 0x01
      then handle_key order now attached e.code e.value c
      else c

  -- `FeedEvent`
  unfoldable pub feed_event : List (ℕ × ℕ) → ℕ → List ℕ → ℕ → ℕ → ℤ → Capturer F → Capturer F
  feed_event order now attached typ code value c =
      handle_event order now attached (record { typ = typ; code = code; value = value }) c

  -- The fraction of the screen's height that `y` is at, on a scale of 65535.
  abbrev pub scaled_y : ℤ → Capturer F → ℤ
  scaled_y y c = to_i32 (mul (div (of_int y) (of_int c.height)) (of_int (pos 65535)))

  -- The body of `if switched`: the state of the crossing, the devices `attached` are disabled, and
  -- the packets are sent.
  unfoldable pub cross : ℕ → List ℕ → ℤ → Capturer F → Capturer F
  cross now attached y c =
      let is_left = text_eq c.edge_side (bytes_of "left") in
      let c1 = record c {
        last_switch = some now;
        active = false;
        switch_sent = some now;
        edge_y = y;
        active_edge = c.edge_side;
        acc_x = of_int (pos 0);
        acc_y = of_int (pos 0);
        remote_x = if is_left then pos (norm_max - switch_margin) else pos switch_margin;
        remote_y = scaled_y y c;
        can_return = false;
        disabled_ids = attached;
        outputs = disable_xinput attached ∷ c.outputs;
      } in
      burst 5 (if is_left then pos (65535 - 6826) else pos 6826) (scaled_y y c)
        (notify_remote_switch c1)

  -- The rest of a tick for the cursor at x and y.
  unfoldable pub poll_at : ℕ → List ℕ → ℤ × ℤ → Capturer F → Capturer F
  poll_at now attached p c =
      let armed = record c { can_switch = c.can_switch || away_from_edge p.0 c } in
      if armed.can_switch && at_edge p.0 c && not (too_soon now c.last_switch)
      then cross now attached p.1 armed
      else armed

  -- One tick of `pollCursorEdge`, with the position of the cursor if it could be read.
  unfoldable pub poll_cursor_edge : ℕ → List ℕ → Option (ℤ × ℤ) → Capturer F → Capturer F
  poll_cursor_edge now attached none c = c
  poll_cursor_edge now attached (some p) c = if c.active then poll_at now attached p c else c
