-- ===== src/Capture/Events/Ownership/Moving.antt =====
-- What motion changes of the owner (internal/capture/capture_linux.go).
use wayland_without_borders.Prelude.{
  ℕ, ◌≡◌, refl, sym, subst, Bool, true, false, ◌&&◌, ◌||◌, List, ◌==◌, if◌then◌else◌, arith,
  Bool-cases, inl, inr, both_branches,
}
use wayland_without_borders.Prelude.Int.{ℤ}
use wayland_without_borders.Prelude.Float.{Float64}
use wayland_without_borders.Capture.{Side, right, top, bottom, left, side_of, Capturer}
use wayland_without_borders.Capture.Control.{enabled}
use wayland_without_borders.Capture.Motion.{
  in_grace, send_mouse, clamp_remote, add_motion, after_motion, handle_rel, feed_motion, moved_away,
  at_return_edge, return_armed, switches_back, parked, returned,
}
use wayland_without_borders.Capture.Events.Ownership.{
  local, remote, moves, Change, stay, arm_return, come_back, owner, Follows, same,
}

away_not_at : (s : Side) (x y : ℤ) → moved_away s x y ≡ true → at_return_edge s x y ≡ false
away_not_at right x y h = ground arith
away_not_at top x y h = ground arith
away_not_at bottom x y h = ground arith
away_not_at left x y h = ground arith

motion_rule :
    (active can_switch can_return away at_edge : Bool)
    → active ≡ false
    → (away ≡ true → at_edge ≡ false)
    → Change moves (if active then local can_switch else remote can_return) (
        if (can_return || away) && at_edge
        then local false
        else if active
        then local can_switch
        else remote (can_return || away))
motion_rule true cs cr away at inactive apart = absurd (ground arith)
motion_rule false cs true away true inactive apart = come_back
motion_rule false cs true away false inactive apart = stay
motion_rule false cs false true true inactive apart = absurd (ground (arith, apart refl))
motion_rule false cs false true false inactive apart = arm_return
motion_rule false cs false false at inactive apart = stay

module _ (fl : Float64) where
  open fl use {F}

  parked-owner :
      (p : ℤ × ℤ) (ids : List ℕ) (c : Capturer F)
      → (owner (parked fl p ids c) ≡ owner c) × ((parked fl p ids c).width ≡ c.width)
  unfolding enabled
  parked-owner p ids c =
      both_branches (λ (d : Capturer F). (owner d ≡ owner c) × (d.width ≡ c.width))
        c.has_return_local (refl, refl) (refl, refl)

  after_motion-owner :
      (now : ℕ) (ids : List ℕ) (c : Capturer F)
      → (owner (after_motion fl now ids c) ≡ (
          if switches_back c
          then local false
          else if c.active
          then local c.can_switch
          else remote (return_armed c)))
        × ((after_motion fl now ids c).width ≡ c.width)
  unfolding after_motion send_mouse
  after_motion-owner now ids c = elim (Bool-cases (switches_back c)) [
    | inl h ↦
        rw (h) (parked-owner _ ids (returned fl now (record c { can_return = return_armed c })))
    | inr h ↦ rw (h) (refl, refl)
  ]

  after_motion-Follows :
      (now : ℕ) (ids : List ℕ) (c : Capturer F)
      → c.active ≡ false
      → Follows moves c (after_motion fl now ids c)
  after_motion-Follows now ids c inactive =
      let (e, w) = after_motion-owner now ids c in
      (
        subst (λ o. Change moves (owner c) o) (sym e)
            (motion_rule c.active c.can_switch c.can_return _ _ inactive
              (away_not_at (side_of c.active_edge) c.remote_x c.remote_y)),
        w,
      )

  pub handle_rel-Follows :
      (now : ℕ) (ids : List ℕ) (code : ℕ) (value : ℤ) (c : Capturer F)
      → c.active ≡ false
      → Follows moves c (handle_rel fl now ids code value c)
  unfolding handle_rel add_motion clamp_remote send_mouse
  handle_rel-Follows now ids code value c inactive =
      both_branches (Follows moves c) (code == 0x00)
        (after_motion-Follows now ids (add_motion fl _ _ c) inactive)
        (both_branches (Follows moves c) (code == 0x01)
          (after_motion-Follows now ids (add_motion fl _ _ c) inactive)
          (both_branches (Follows moves c) (code == 0x08) (same c)
            (both_branches (Follows moves c) (code == 0x06) (same c) (same c))))

  pub feed_motion-Follows :
      (now : ℕ) (ids : List ℕ) (dx dy : F) (c : Capturer F)
      → Follows moves c (feed_motion fl now ids dx dy c)
  unfolding feed_motion add_motion clamp_remote
  feed_motion-Follows now ids dx dy c = elim (Bool-cases c.active) [
    | inl h ↦ rw (h) (stay, refl)
    | inr h ↦
        both_branches (Follows moves c) (c.active || in_grace now c.switch_sent) (same c)
          (after_motion-Follows now ids (add_motion fl _ _ c) h)
  ]
