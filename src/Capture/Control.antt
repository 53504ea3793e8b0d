-- ===== src/Capture/Control.antt =====
-- internal/capture/capture_linux.go: the hand-over of the cursor.
use wayland_without_borders.Prelude.{
  ℕ, suc, ◌-◌, ◌/◌, Bool, true, false, ◌&&◌, ◌||◌, not, none, some, List, [], ◌∷◌, if◌then◌else◌,
}
use wayland_without_borders.Prelude.Int.{ℤ, pos, negsuc, ◌-ℤ◌, sub_ℕ, leb_ℤ, wrap32}
use wayland_without_borders.Prelude.Float.{Float64}
use wayland_without_borders.Prelude.Text.{Text, bytes_of, text_eq}
use wayland_without_borders.Protocol.Types
use wayland_without_borders.Protocol.Packet.{new_packet}
use wayland_without_borders.Input.Keymap.Registered.{contains}
use wayland_without_borders.Capture.{
  norm_max, switch_margin, return_edge_margin, reclaim_edge_margin, Side, right, top, bottom, left,
  side_of, send, enable_xinput, Capturer,
}

-- The map of the ids that were disabled and those that are attached; Go ranges over it in any order.
abbrev pub merged : List ℕ → List ℕ → List ℕ
merged ids [] = ids
merged ids (i ∷ current) = merged (if contains i ids then ids else i ∷ ids) current

-- A capturer after `enableXinput`, where `attached` is what xinput lists.
unfoldable pub enabled : {F : Type 0} → List ℕ → Capturer F → Capturer F
enabled attached c = record c {
  disabled_ids = [];
  outputs = enable_xinput (merged c.disabled_ids attached) ∷ c.outputs;
}

-- `New`
unfoldable pub new : (fl : Float64) → ℕ → ℕ → ℤ → ℤ → Text → Capturer fl.F
new fl machine_id remote_id width height edge_side = record {
  machine_id = machine_id;
  remote_id = remote_id;
  width = width;
  height = height;
  active = true;
  edge_side = edge_side;
  last_switch = none;
  switch_sent = none;
  last_activated = none;
  remote_x = pos 0;
  remote_y = pos 0;
  acc_x = fl.of_int (pos 0);
  acc_y = fl.of_int (pos 0);
  active_edge = edge_side;
  accel_mult = fl.of_int (pos 2);
  edge_y = pos 0;
  can_switch = true;
  can_return = false;
  hotkey_ctrl = false;
  hotkey_alt = false;
  disabled_ids = [];
  has_return_local = false;
  outputs = [];
}

-- What `SetActive` changes under the lock. `now` is the time of the call.
abbrev pub activated : {F : Type 0} → ℕ → Bool → Capturer F → Capturer F
activated now active c =
    if active && not c.active
    then record c {
      active = active;
      switch_sent = none;
      last_activated = some now;
      can_switch = false;
      can_return = false;
    }
    else record c { active = active }

-- `SetActive`
unfoldable pub set_active : {F : Type 0} → ℕ → List ℕ → Bool → Capturer F → Capturer F
set_active now attached active c =
    if active && not c.active
    then enabled attached (activated now active c)
    else activated now active c

-- `NotifyRemoteSwitch`
unfoldable pub notify_remote_switch : {F : Type 0} → Capturer F → Capturer F
notify_remote_switch c = record c {
  outputs = send (new_packet Types.machine_switched c.machine_id c.remote_id) ∷ c.outputs;
}

-- Half of an int32, towards zero.
unfoldable pub half : ℤ → ℤ
half (pos n) = pos (n / 2)
half (negsuc n) = sub_ℕ 0 (suc n / 2)

-- `SafeEntryPosition`
unfoldable pub safe_entry_position : {F : Type 0} → Capturer F → ℤ × ℤ
unfolding half
safe_entry_position c = (
  if text_eq c.edge_side (bytes_of "left")
      then pos 100
      else if text_eq c.edge_side (bytes_of "right")
      then wrap32 (c.width -ℤ pos 100)
      else half c.width,
  half c.height,
)

-- `AcceptsReclaim`
unfoldable pub accepts_reclaim : {F : Type 0} → Capturer F → ℤ → Bool
accepts_reclaim c request_x =
    if text_eq c.edge_side (bytes_of "left")
    then leb_ℤ request_x (pos reclaim_edge_margin)
    else if text_eq c.edge_side (bytes_of "right")
    then leb_ℤ (pos (65535 - reclaim_edge_margin)) request_x
    else true

-- The switch of `AcceptsActivation`.
abbrev pub near_return_edge : Side → ℤ → ℤ → Bool
near_return_edge right x y = leb_ℤ x (pos return_edge_margin)
near_return_edge top x y = leb_ℤ (pos (norm_max - return_edge_margin)) y
near_return_edge bottom x y = leb_ℤ y (pos return_edge_margin)
near_return_edge left x y = leb_ℤ (pos (norm_max - return_edge_margin)) x

-- `AcceptsActivation`
unfoldable pub accepts_activation : {F : Type 0} → Capturer F → Bool
accepts_activation c = c.active || near_return_edge (side_of c.active_edge) c.remote_x c.remote_y

-- Where the cursor is put on the remote machine by a crossing, `perp` along the edge.
abbrev pub entry_point : Side → ℤ → ℤ × ℤ
entry_point right perp = (pos switch_margin, perp)
entry_point top perp = (perp, pos (norm_max - switch_margin))
entry_point bottom perp = (perp, pos switch_margin)
entry_point left perp = (pos (norm_max - switch_margin), perp)

-- The point just inside a local edge: `inset` from it, and (px, py) along it.
abbrev pub inset_point : Side → ℤ → ℤ → ℤ → ℤ → ℤ → ℤ × ℤ
inset_point right inset width height px py = (wrap32 (width -ℤ inset), py)
inset_point top inset width height px py = (px, inset)
inset_point bottom inset width height px py = (px, wrap32 (height -ℤ inset))
inset_point left inset width height px py = (inset, py)

module _ (fl : Float64) where
  open fl use {F, of_int, mul, le, eq, to_i32}

  abbrev pub less : F → F → Bool
  less x y = le x y && not (eq x y)

  -- `if perpFrac < 0 { perpFrac = 0 } else if perpFrac > 1 { perpFrac = 1 }`
  unfoldable pub unit_clamped : F → F
  unit_clamped f =
      if less f (of_int (pos 0))
      then of_int (pos 0)
      else if less (of_int (pos 1)) f
      then of_int (pos 1)
      else f

  -- `EnterRemoteEdge`
  unfoldable pub enter_remote_edge : ℕ → Text → F → Capturer F → Capturer F
  enter_remote_edge now edge perp_frac c =
      let perp = to_i32 (mul (unit_clamped perp_frac) (of_int (pos norm_max))) in
      record c {
        active = false;
        switch_sent = some now;
        active_edge = edge;
        remote_x = (entry_point (side_of edge) perp).0;
        remote_y = (entry_point (side_of edge) perp).1;
        acc_x = of_int (pos 0);
        acc_y = of_int (pos 0);
        can_return = false;
      }

  -- `EdgeReentry`
  unfoldable pub edge_reentry : Text → F → Capturer F → ℤ × ℤ
  edge_reentry edge perp_frac c =
      inset_point (side_of edge) (pos 12) c.width c.height (to_i32 (mul perp_frac (of_int c.width)))
        (to_i32 (mul perp_frac (of_int c.height)))

  -- `SetAccelMultiplier`
  unfoldable pub set_accel_multiplier : F → Capturer F → Capturer F
  set_accel_multiplier m c = if le m (of_int (pos 0)) then c else record c { accel_mult = m }
