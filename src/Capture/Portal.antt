-- ===== src/Capture/Portal.antt =====
-- internal/capture/portal_wayland.go: the Wayland driver, which gets its crossings from the desktop
-- portal and its input from libei. D-Bus and libei are not modelled: what they deliver is the input
-- of the steps, and a release is recorded as an output of the capturer. A float64 that the portal
-- places the cursor at is an int32 here, as it always is one.
pub mod Start
pub mod Grid
use wayland_without_borders.Prelude.{
  ℕ, ◌+◌, ◌-◌, ◌*◌, ◌^◌, ◌%◌, Bool, true, false, ◌&&◌, ◌||◌, not, Option, none, some, List, [], ◌∷◌,
  ◌++◌, ◌==◌, if◌then◌else◌, bit_and,
}
use wayland_without_borders.Prelude.Int.{ℤ, pos, ◌+ℤ◌, ◌-ℤ◌, ◌*ℤ◌, leb_ℤ, ltb_ℤ, eqb_ℤ, wrap32}
use wayland_without_borders.Prelude.Float.{Float64}
use wayland_without_borders.Prelude.Text.{Text, bytes_of, text_eq, trim_space, to_lower}
use wayland_without_borders.Capture.{Output, return_local, Capturer}
use wayland_without_borders.Capture.Control.{
  new, set_active, set_accel_multiplier, enter_remote_edge, edge_reentry, notify_remote_switch,
  safe_entry_position,
}
use wayland_without_borders.Capture.Motion.{feed_motion, feed_wheel}
use wayland_without_borders.Capture.Events.{feed_event}

-- `cap`, the zone, the touchpad's accumulators, and the modifiers. `gates` are the goroutines that
-- run `gatedEnter`, with the edge and the fraction of each.
pub record Portal (F : Type 0) : Type 0 where
  pub cap : Capturer F
  pub screen_w : ℤ
  pub screen_h : ℤ
  pub zone_x : ℤ
  pub zone_y : ℤ
  pub active_id : ℕ
  pub scr_acc_x : F
  pub scr_acc_y : F
  pub want_mod : ℕ
  pub cur_mods : ℕ
  pub gates : List (Text × F)
  pub stopped : Bool

-- The options of the signal `Activated`, where they are there and have their type.
pub record Activation (F : Type 0) : Type 0 where
  pub activation_id : Option ℕ
  pub barrier_id : Option ℕ
  pub cursor_position : Option (F × F)

pub data EiEvent (F : Type 0) : Type 0 where
  ei_motion : F → F → EiEvent F
  ei_button ei_key : ℕ → Bool → EiEvent F
  ei_scroll : Bool → F → F → EiEvent F
  ei_modifiers : ℕ → EiEvent F
  ei_disconnect : EiEvent F

-- `modMask`
unfoldable pub mod_mask : Text → ℕ
mod_mask name =
    let n = to_lower (trim_space name) in
    if text_eq n (bytes_of "shift")
    then 1
    else if text_eq n (bytes_of "ctrl") || text_eq n (bytes_of "control")
    then 4
    else if text_eq n (bytes_of "alt")
    then 8
    else 0

-- `barrierEdge`
unfoldable pub barrier_edge : ℕ → Text
barrier_edge id =
    if id == 2
    then bytes_of "right"
    else if id == 3
    then bytes_of "top"
    else if id == 4
    then bytes_of "bottom"
    else bytes_of "left"

-- `boolToVal`
abbrev pub bool_to_val : Bool → ℤ
bool_to_val true = pos 1
bool_to_val false = pos 0

-- `release`
unfoldable pub release : {F : Type 0} → ℤ × ℤ → Capturer F → Capturer F
release p c = record c { outputs = return_local p.0 p.1 ∷ c.outputs }

-- `ReleaseRemote`
unfoldable pub release_remote : {F : Type 0} → ℕ → List ℕ → Portal F → Portal F
release_remote now attached p =
    if p.cap.active
    then p
    else record p { cap = release (safe_entry_position p.cap) (set_active now attached true p.cap) }

-- The case `Deactivated` of `signalLoop`.
unfoldable pub on_deactivated : {F : Type 0} → ℕ → List ℕ → Portal F → Portal F
on_deactivated now attached p = record p { cap = set_active now attached true p.cap }

-- A barrier: its id, and its line from (x1, y1) to (x2, y2).
pub record Barrier : Type 0 where
  pub id : ℕ
  pub x1 : ℤ
  pub y1 : ℤ
  pub x2 : ℤ
  pub y2 : ℤ

-- The entry of `byEdge` for an edge.
unfoldable pub barrier_at : {F : Type 0} → Portal F → Text → Option Barrier
barrier_at p e =
    let x_l = p.zone_x in
    let x_r = wrap32 (p.zone_x +ℤ p.screen_w) in
    let y_t = p.zone_y in
    let y_b = wrap32 (p.zone_y +ℤ p.screen_h) in
    if text_eq e (bytes_of "left")
    then some (record { id = 1; x1 = x_l; y1 = y_t; x2 = x_l; y2 = wrap32 (y_b -ℤ pos 1) })
    else if text_eq e (bytes_of "right")
    then some (record { id = 2; x1 = x_r; y1 = y_t; x2 = x_r; y2 = wrap32 (y_b -ℤ pos 1) })
    else if text_eq e (bytes_of "top")
    then some (record { id = 3; x1 = x_l; y1 = y_t; x2 = wrap32 (x_r -ℤ pos 1); y2 = y_t })
    else if text_eq e (bytes_of "bottom")
    then some (record { id = 4; x1 = x_l; y1 = y_b; x2 = wrap32 (x_r -ℤ pos 1); y2 = y_b })
    else none

abbrev pub with_barrier : Option Barrier → List Barrier → List Barrier
with_barrier none bs = bs
with_barrier (some b) bs = b ∷ bs

-- The barriers that `setBarriers` asks for; none is an error.
unfoldable pub barriers : {F : Type 0} → Portal F → List Text → List Barrier
barriers p [] = []
barriers p (e ∷ edges) = with_barrier (barrier_at p e) (barriers p edges)

module _ (fl : Float64) where
  open fl use {F, of_int, sub, add, mul, div, trunc, to_i32}

  -- The portal of `RunWayland` in the given zone (x, y, width, height), once it is set up. `half`
  -- is the constant 0.5.
  unfoldable pub run_wayland : ℕ → ℕ → (ℤ × ℤ) → (ℤ × ℤ) → Text → Text → F → Portal F
  run_wayland machine_id remote_id zone size edge_side switch_modifier accel = record {
    cap =
        record (set_accel_multiplier fl accel
          (new fl machine_id remote_id size.0 size.1 edge_side)) { has_return_local = true };
    screen_w = size.0;
    screen_h = size.1;
    zone_x = zone.0;
    zone_y = zone.1;
    active_id = 0;
    scr_acc_x = of_int (pos 0);
    scr_acc_y = of_int (pos 0);
    want_mod = mod_mask switch_modifier;
    cur_mods = 0;
    gates = [];
    stopped = false;
  }

  -- The fraction of one axis: 0.5 where there is no size.
  abbrev pub fraction : F → ℤ → ℤ → F
  fraction at zone size =
      if ltb_ℤ (pos 0) size
      then div (sub at (of_int zone)) (of_int size)
      else div (of_int (pos 1)) (of_int (pos 2))

  abbrev pub fractions : Option (F × F) → Portal F → F × F
  fractions none p = (div (of_int (pos 1)) (of_int (pos 2)), div (of_int (pos 1)) (of_int (pos 2)))
  fractions (some xy) p = (fraction xy.0 p.zone_x p.screen_w, fraction xy.1 p.zone_y p.screen_h)

  abbrev pub edge_of : Option ℕ → Text
  edge_of none = bytes_of "left"
  edge_of (some id) = barrier_edge id

  abbrev pub perp_frac : Text → F × F → F
  perp_frac edge f =
      if text_eq edge (bytes_of "top") || text_eq edge (bytes_of "bottom") then f.0 else f.1

  abbrev pub id_or : Option ℕ → ℕ → ℕ
  id_or none old = old
  id_or (some id) old = id

  -- The crossing: `EnterRemoteEdge`, then `NotifyRemoteSwitch`.
  unfoldable pub crossed : ℕ → Text → F → Portal F → Portal F
  crossed now edge frac p = record p {
    cap = notify_remote_switch (enter_remote_edge fl now edge frac p.cap);
  }

  -- `onActivated`, on a body that has its options.
  unfoldable pub on_activated : ℕ → Activation F → Portal F → Portal F
  on_activated now a p =
      let edge = edge_of a.barrier_id in
      let frac = perp_frac edge (fractions a.cursor_position p) in
      let q = record p { active_id = id_or a.activation_id p.active_id } in
      if p.want_mod == 0
      then crossed now edge frac q
      else record q { cur_mods = 0; gates = p.gates ++ (edge, frac) ∷ [] }

  -- The goroutine of the first of the gates, if there is one, and the others.
  unfoldable pub gate_opened : ℕ → List (Text × F) → Portal F → Portal F
  gate_opened now [] p = p
  gate_opened now (g ∷ gates) p =
      let q = record p { gates = gates } in
      if p.stopped
      then q
      else if bit_and p.cur_mods p.want_mod == 0
      then record q { cap = release (edge_reentry fl g.0 g.1 p.cap) p.cap }
      else crossed now g.0 g.1 q

  -- `gatedEnter`, 80 ms later.
  unfoldable pub gated_enter : ℕ → Portal F → Portal F
  gated_enter now p = gate_opened now p.gates p

  -- `notches`: what is left, and the wheel units.
  unfoldable pub notches : F → F × ℤ
  notches acc =
      let n = trunc (div acc (of_int (pos 30))) in
      (sub acc (mul n (of_int (pos 30))), wrap32 (to_i32 n *ℤ pos 120))

  -- The case `eiScroll`.
  unfoldable pub scrolled : Bool → F → F → Portal F → Portal F
  unfolding notches
  scrolled true dx dy p = record p {
    cap = feed_wheel (wrap32 (pos 0 -ℤ to_i32 dy)) (to_i32 dx) p.cap;
  }
  scrolled false dx dy p =
      let v = notches (add p.scr_acc_y dy) in
      let h = notches (add p.scr_acc_x dx) in
      record p {
        scr_acc_y = v.0;
        scr_acc_x = h.0;
        cap =
            if eqb_ℤ v.1 (pos 0) && eqb_ℤ h.1 (pos 0)
            then p.cap
            else feed_wheel (wrap32 (pos 0 -ℤ v.1)) h.1 p.cap;
      }

  -- `feed`
  unfoldable pub feed : List (ℕ × ℕ) → ℕ → List ℕ → EiEvent F → Portal F → Portal F
  feed order now attached (ei_motion dx dy) p = record p {
    cap = feed_motion fl now attached dx dy p.cap;
  }
  feed order now attached (ei_button code press) p = record p {
    cap = feed_event fl order now attached 0x01 (code % 2 ^ 16) (bool_to_val press) p.cap;
  }
  feed order now attached (ei_key code press) p = record p {
    cap = feed_event fl order now attached 0x01 (code % 2 ^ 16) (bool_to_val press) p.cap;
  }
  feed order now attached (ei_scroll discrete dx dy) p = scrolled discrete dx dy p
  feed order now attached (ei_modifiers mask) p = record p { cur_mods = mask }
  feed order now attached ei_disconnect p = record p { stopped = true }

  -- A step of the driver: a signal, the wait of a goroutine that ends, an event, or a callback of
  -- the packet handler, which is `ReleaseRemote`. Each has its time and what xinput lists.
  pub data Step : Type 0 where
    activates : Activation F → Step
    deactivates gate_opens reclaims : Step
    feeds : EiEvent F → Step

  unfoldable pub portal_step : List (ℕ × ℕ) → ℕ → List ℕ → Step → Portal F → Portal F
  portal_step order now attached (activates a) p = on_activated now a p
  portal_step order now attached deactivates p = on_deactivated now attached p
  portal_step order now attached gate_opens p = gated_enter now p
  portal_step order now attached reclaims p = release_remote now attached p
  portal_step order now attached (feeds e) p = feed order now attached e p

  unfoldable pub portal_steps : List (ℕ × ℕ) → List (ℕ × (List ℕ × Step)) → Portal F → Portal F
  portal_steps order [] p = p
  portal_steps order ((now, (attached, s)) ∷ more) p =
      portal_steps order more (portal_step order now attached s p)
