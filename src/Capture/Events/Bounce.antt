-- ===== src/Capture/Events/Bounce.antt =====
-- What a hand-back from the remote machine meets right after a crossing of the X11 driver
-- (internal/capture/capture_linux.go and internal/network/handler.go, as cmd/mwb/main.go joins them).
use wayland_without_borders.Prelude.{
  ℕ, zero, suc, ◌-◌, ◌≡◌, refl, sym, ap, ◌∙◌, Bool, true, false, ◌&&◌, ◌||◌, not, Option, none,
  some, List, if◌then◌else◌, arith, Bool-cases, inl, inr, both_branches,
}
use wayland_without_borders.Prelude.Int.{ℤ, pos}
use wayland_without_borders.Prelude.Float.{Float64}
use wayland_without_borders.Prelude.Text.{Text, bytes_of, text_eq, text_eq_sound}
use wayland_without_borders.Protocol.Types
use wayland_without_borders.Protocol.Packet.{Packet}
use wayland_without_borders.Network.Devices.{MouseDevice, KeyboardDevice, ClipboardHandler}
use wayland_without_borders.Network.Handler.Keys.{flush_pending_ctrl}
use wayland_without_borders.Network.Handler.Cursor.{wm_mousemove}
use wayland_without_borders.Network.Handler.{World, HandlerState, handle_packet, allows}
use wayland_without_borders.Network.Handler.Dispatch.{handle_packet_rejected}
use wayland_without_borders.Capture.{norm_max, switch_margin, side_of, Capturer}
use wayland_without_borders.Capture.Control.{
  near_return_edge, accepts_activation, notify_remote_switch,
}
use wayland_without_borders.Capture.Motion.{send_mouse}
use wayland_without_borders.Capture.Events.{
  away_from_edge, at_edge, too_soon, burst, scaled_y, cross, poll_at, poll_cursor_edge,
}

-- The entry point of the X11 driver is not near the edge that a return goes through.
entry_not_near :
    (edge : Text) (y : ℤ) (p q : Bool)
    → text_eq edge (bytes_of "left") ≡ p
    → text_eq edge (bytes_of "right") ≡ q
    → p || q ≡ true
    → near_return_edge
        (side_of edge)
        (if p then pos (norm_max - switch_margin) else pos switch_margin)
        y
      ≡ false
unfolding side_of
entry_not_near edge y true q l r h = rw (text_eq_sound edge (bytes_of "left") l) refl
entry_not_near edge y false true l r h = rw (text_eq_sound edge (bytes_of "right") r) refl
entry_not_near edge y false false l r h = absurd (ground arith)

at_edge-side :
    {F : Type 0} (x : ℤ) (c : Capturer F)
    → at_edge x c ≡ true
    → text_eq c.edge_side (bytes_of "left") || text_eq c.edge_side (bytes_of "right") ≡ true
at_edge-side x c h = ground arith

module _ {F : Type 0} where
  burst-accepts_activation :
      (n : ℕ) (x y : ℤ) (c : Capturer F)
      → (accepts_activation (burst n x y c) ≡ accepts_activation c)
        × ((burst n x y c).active ≡ c.active)
  unfolding burst send_mouse accepts_activation
  burst-accepts_activation zero x y c = (refl, refl)
  burst-accepts_activation (suc n) x y c =
      burst-accepts_activation n x y (send_mouse x y (pos 0) wm_mousemove c)

module _ (fl : Float64) where
  open fl use {F}

  cross-accepts_activation :
      (now : ℕ) (ids : List ℕ) (y : ℤ) (c : Capturer F)
      → text_eq c.edge_side (bytes_of "left") || text_eq c.edge_side (bytes_of "right") ≡ true
      → accepts_activation (cross fl now ids y c) ≡ (cross fl now ids y c).active
  unfolding cross notify_remote_switch accepts_activation
  cross-accepts_activation now ids y c side =
      let (e, f) = burst-accepts_activation 5 _ _ _ in
      e ∙ entry_not_near c.edge_side (scaled_y fl y c) _ _ refl refl side ∙ sym f

  poll_at-accepts_activation :
      (now : ℕ) (ids : List ℕ) (p : ℤ × ℤ) (c : Capturer F)
      → c.active ≡ true
      → accepts_activation (poll_at fl now ids p c) ≡ (poll_at fl now ids p c).active
  unfolding poll_at accepts_activation
  poll_at-accepts_activation now ids p c home =
      elim (Bool-cases (
        (c.can_switch || away_from_edge p.0 c)
        && at_edge p.0 c
        && not (too_soon now c.last_switch))) [
          | inl h ↦
              rw (h) (cross-accepts_activation now ids p.1 _ (at_edge-side p.0 c (ground arith)))
          | inr h ↦ rw (h, home) refl
        ]

  -- After a poll of a capturer that owns the cursor, a hand-back is accepted just when the cursor
  -- did not leave.
  accepts_activation-poll_cursor_edge :
      (now : ℕ) (ids : List ℕ) (at : Option (ℤ × ℤ)) (c : Capturer F)
      → c.active ≡ true
      → accepts_activation (poll_cursor_edge fl now ids at c)
        ≡ (poll_cursor_edge fl now ids at c).active
  unfolding poll_cursor_edge accepts_activation
  accepts_activation-poll_cursor_edge now ids none c home = rw (home) refl
  accepts_activation-poll_cursor_edge now ids (some p) c home =
      both_branches (λ (d : Capturer F). accepts_activation d ≡ d.active) c.active
        (poll_at-accepts_activation now ids p c home) (rw (home) refl)

module _ (fl : Float64) (kb : KeyboardDevice) (md : MouseDevice) (cb : ClipboardHandler) where
  -- If a poll of a capturer that owns the cursor gives it away, a `MachineSwitched` that comes back
  -- at once, with `AcceptsActivation` as the handler's `ShouldActivate`, changes nothing of the
  -- handler but a Ctrl that waits, which is sent.
  pub handle_packet-poll_cursor_edge :
      (now : ℕ) (ids : List ℕ) (at : Option (ℤ × ℤ)) (c : Capturer fl.F) (w : World)
      (h : HandlerState fl kb md cb) (p : Packet)
      → c.active ≡ true
      → (poll_cursor_edge fl now ids at c).active ≡ false
      → w.should_activate ≡ some (accepts_activation (poll_cursor_edge fl now ids at c))
      → p.typ ≡ Types.machine_switched
      → handle_packet fl kb md cb w h p ≡ record h { keys = (flush_pending_ctrl kb h.keys).0 }
  handle_packet-poll_cursor_edge now ids at c w h p home gone asks switched =
      handle_packet_rejected fl kb md cb w h p switched
        (ap allows asks ∙ accepts_activation-poll_cursor_edge fl now ids at c home ∙ gone)
