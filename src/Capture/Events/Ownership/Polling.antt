-- ===== src/Capture/Events/Ownership/Polling.antt =====
-- What a poll of the cursor changes of the owner (internal/capture/capture_linux.go).
use wayland_without_borders.Prelude.{
  ℕ, zero, suc, ◌≤◌, ◌≡◌, refl, ap, Bool, true, false, ◌&&◌, ◌||◌, not, Option, none, some, List,
  if◌then◌else◌, arith, Bool-cases, inl, inr,
}
use wayland_without_borders.Prelude.Int.{
  ℤ, pos, negsuc, ◌-ℤ◌, ◌≤ℤ◌, IsI32, leb_ℤ, ltb_ℤ, wrap32, wrap32_id,
}
use wayland_without_borders.Prelude.Float.{Float64}
use wayland_without_borders.Prelude.Text.{bytes_of, text_eq}
use wayland_without_borders.Network.Handler.Cursor.{wm_mousemove}
use wayland_without_borders.Capture.{Capturer}
use wayland_without_borders.Capture.Control.{notify_remote_switch}
use wayland_without_borders.Capture.Motion.{send_mouse}
use wayland_without_borders.Capture.Events.{
  away_from_edge, at_edge, too_soon, burst, cross, poll_at, poll_cursor_edge,
}
use wayland_without_borders.Capture.Events.Ownership.{
  local, remote, polls, Change, stay, arm_crossing, leave, owner, Follows, same,
}

inner : (w : ℤ) (n : ℕ) → pos 0 ≤ℤ w → IsI32 w → n ≤ 20 → wrap32 (w -ℤ pos n) ≡ w -ℤ pos n
unfolding ◌-ℤ◌
inner (pos m) n wide fits h = wrap32_id (pos m -ℤ pos n) (ground arith)
inner (negsuc m) n wide fits h = absurd (omega arith)

apart_edges :
    (is_left is_right : Bool) (x w : ℤ)
    → pos 0 ≤ℤ w
    → IsI32 w
    → (if is_left
        then ltb_ℤ (pos 20) x
        else if is_right
        then ltb_ℤ x (wrap32 (w -ℤ pos 20))
        else false)
      ≡ true
    → (if is_left
        then leb_ℤ x (pos 1)
        else if is_right
        then leb_ℤ (wrap32 (w -ℤ pos 1)) x
        else false)
      ≡ false
unfolding ◌-ℤ◌
apart_edges true r x w wide fits h = ground arith
apart_edges false true x w wide fits h =
    ground (arith, inner w 20 wide fits (omega arith), inner w 1 wide fits (omega arith))
apart_edges false false x w wide fits h = refl

module _ {F : Type 0} where
  -- A poll cannot find the cursor both away from the edge and at it.
  away_not_at_edge :
      (x : ℤ) (c : Capturer F)
      → pos 0 ≤ℤ c.width
      → IsI32 c.width
      → away_from_edge x c ≡ true
      → at_edge x c ≡ false
  away_not_at_edge x c wide fits h =
      apart_edges (text_eq c.edge_side (bytes_of "left")) (text_eq c.edge_side (bytes_of "right")) x
        c.width wide fits h

  burst-owner :
      (n : ℕ) (x y : ℤ) (c : Capturer F)
      → (owner (burst n x y c) ≡ owner c) × ((burst n x y c).width ≡ c.width)
  unfolding burst send_mouse
  burst-owner zero x y c = (refl, refl)
  burst-owner (suc n) x y c = burst-owner n x y (send_mouse x y (pos 0) wm_mousemove c)

poll_rule :
    (can_switch away at_edge ready : Bool)
    → (away ≡ true → at_edge ≡ false)
    → Change polls (local can_switch) (
        if (can_switch || away) && at_edge && ready
        then remote false
        else local (can_switch || away))
poll_rule true away true true apart = leave
poll_rule true away true false apart = stay
poll_rule true away false ready apart = stay
poll_rule false true true ready apart = absurd (ground (arith, apart refl))
poll_rule false true false ready apart = arm_crossing
poll_rule false false at ready apart = stay

module _ (fl : Float64) where
  open fl use {F}

  cross-owner :
      (now : ℕ) (ids : List ℕ) (y : ℤ) (c : Capturer F)
      → (owner (cross fl now ids y c) ≡ remote false) × ((cross fl now ids y c).width ≡ c.width)
  unfolding cross notify_remote_switch
  cross-owner now ids y c = burst-owner 5 _ _ _

  poll_at-owner :
      (now : ℕ) (ids : List ℕ) (p : ℤ × ℤ) (c : Capturer F)
      → c.active ≡ true
      → (owner (poll_at fl now ids p c) ≡ (
          if (c.can_switch || away_from_edge p.0 c)
            && at_edge p.0 c
            && not (too_soon now c.last_switch)
          then remote false
          else local (c.can_switch || away_from_edge p.0 c)))
        × ((poll_at fl now ids p c).width ≡ c.width)
  unfolding poll_at
  poll_at-owner now ids p c home =
      elim (Bool-cases (
        (c.can_switch || away_from_edge p.0 c)
        && at_edge p.0 c
        && not (too_soon now c.last_switch))) [
          | inl h ↦ rw (h) (cross-owner now ids p.1 _)
          | inr h ↦ rw (h, home) (refl, refl)
        ]

  poll_at-Follows :
      (now : ℕ) (ids : List ℕ) (p : ℤ × ℤ) (c : Capturer F)
      → pos 0 ≤ℤ c.width
      → IsI32 c.width
      → c.active ≡ true
      → Follows polls c (poll_at fl now ids p c)
  poll_at-Follows now ids p c wide fits home =
      let (e, w) = poll_at-owner now ids p c home in
      let here = ap (λ b. if b then local c.can_switch else remote c.can_return) home in
      (rw (e, here) (poll_rule c.can_switch _ _ _ (away_not_at_edge p.0 c wide fits)), w)

  pub poll_cursor_edge-Follows :
      (now : ℕ) (ids : List ℕ) (at : Option (ℤ × ℤ)) (c : Capturer F)
      → pos 0 ≤ℤ c.width
      → IsI32 c.width
      → Follows polls c (poll_cursor_edge fl now ids at c)
  unfolding poll_cursor_edge
  poll_cursor_edge-Follows now ids none c wide fits = same c
  poll_cursor_edge-Follows now ids (some p) c wide fits = go c.active refl
    where
      go : (b : Bool) → c.active ≡ b → Follows polls c (if b then poll_at fl now ids p c else c)
      go true home = poll_at-Follows now ids p c wide fits home
      go false away = same c
