-- ===== src/Capture/Portal/Grid.antt =====
-- The coordinates that the Wayland driver sends (internal/capture/portal_wayland.go).
use wayland_without_borders.Prelude.{
  ℕ, ◌≡◌, refl, Bool, true, false, ◌||◌, Option, none, some, List, [], ◌∷◌, ◌==◌, if◌then◌else◌,
  arith, Bool-cases, inl, inr, both_branches, bit_and,
}
use wayland_without_borders.Prelude.Bytes.{All, All-append}
use wayland_without_borders.Prelude.Int.{ℤ, pos, ltb_ℤ}
use wayland_without_borders.Prelude.Float.{Float64}
use wayland_without_borders.Prelude.Text.{Text, bytes_of, text_eq}
use wayland_without_borders.Capture.{norm_max, Side, right, top, bottom, left, side_of, Capturer}
use wayland_without_borders.Capture.Control.{enter_remote_edge, entry_point, unit_clamped, less}
use wayland_without_borders.Capture.Motion.Space.{
  InGrid, IsOnGrid, set_active-IsOnGrid, notify_remote_switch-IsOnGrid, feed_wheel-IsOnGrid,
  feed_motion-IsOnGrid, handle_event-IsOnGrid,
}
use wayland_without_borders.Capture.Events.{feed_event}
use wayland_without_borders.Capture.Portal.{
  Portal, Activation, EiEvent, ei_motion, ei_button, ei_key, ei_scroll, ei_modifiers, ei_disconnect,
  release, release_remote, on_deactivated, fraction, fractions, edge_of, crossed, on_activated,
  gate_opened, gated_enter, scrolled, feed, Step, activates, deactivates, gate_opens, reclaims,
  feeds, portal_step, portal_steps,
}

-- Not NaN.
abbrev pub IsNumber : (fl : Float64) → fl.F → Type 0
IsNumber fl x = fl.le x x ≡ true

-- What IEEE 754 says of the operations that scale a fraction to the grid.
pub record ScalesToGrid (fl : Float64) : Type 0 where
  pub int_number : (z : ℤ) → IsNumber fl (fl.of_int z)
  pub half_number : IsNumber fl (fl.div (fl.of_int (pos 1)) (fl.of_int (pos 2)))
  pub fraction_number :
      (x : fl.F) (zone size : ℤ)
      → ltb_ℤ (pos 0) size ≡ true
      → IsNumber fl x
      → IsNumber fl (fl.div (fl.sub x (fl.of_int zone)) (fl.of_int size))
  pub less_total :
      (x y : fl.F) → IsNumber fl x → IsNumber fl y → less fl x y ≡ false → fl.le y x ≡ true
  pub zero_le_one : fl.le (fl.of_int (pos 0)) (fl.of_int (pos 1)) ≡ true
  pub unit_scales :
      (x : fl.F)
      → fl.le (fl.of_int (pos 0)) x ≡ true
      → fl.le x (fl.of_int (pos 1)) ≡ true
      → InGrid (fl.to_i32 (fl.mul x (fl.of_int (pos norm_max))))

module _ (fl : Float64) where
  open fl use {F}

  -- The driver's invariant: the capturer's, and the fractions that wait at a gate are numbers.
  abbrev pub IsOnWire : Portal F → Type 0
  IsOnWire p = IsOnGrid p.cap × All (λ g. IsNumber fl g.1) p.gates

  -- A position that the portal gives is made of numbers.
  abbrev pub HasNumbers : Option (F × F) → Type 0
  HasNumbers none = Unit
  HasNumbers (some xy) = IsNumber fl xy.0 × IsNumber fl xy.1

  abbrev pub IsSane : Step fl → Type 0
  IsSane (activates a) = HasNumbers a.cursor_position
  IsSane deactivates = Unit
  IsSane gate_opens = Unit
  IsSane reclaims = Unit
  IsSane (feeds e) = Unit

module _ (fl : Float64) (laws : ScalesToGrid fl) where
  open fl use {F, of_int, le, mul, to_i32}

  -- The clamped fraction is between 0 and 1.
  unit_clamped_bounds :
      (f : F)
      → IsNumber fl f
      → (le (of_int (pos 0)) (unit_clamped fl f) ≡ true)
        × (le (unit_clamped fl f) (of_int (pos 1)) ≡ true)
  unfolding unit_clamped
  unit_clamped_bounds f num = go (less fl f (of_int (pos 0))) (less fl (of_int (pos 1)) f) refl refl
    where
      go :
          (a b : Bool)
          → less fl f (of_int (pos 0)) ≡ a
          → less fl (of_int (pos 1)) f ≡ b
          → (le (of_int (pos 0)) (if a then of_int (pos 0) else if b then of_int (pos 1) else f)
              ≡ true)
            × (le (if a then of_int (pos 0) else if b then of_int (pos 1) else f) (of_int (pos 1))
                ≡ true)
      go true b ea eb = (laws.int_number (pos 0), laws.zero_le_one)
      go false true ea eb = (laws.zero_le_one, laws.int_number (pos 1))
      go false false ea eb = (
        laws.less_total f (of_int (pos 0)) num (laws.int_number (pos 0)) ea,
        laws.less_total (of_int (pos 1)) f (laws.int_number (pos 1)) num eb,
      )

  entry_point-InGrid :
      (s : Side) (perp : ℤ)
      → InGrid perp
      → InGrid (entry_point s perp).0 × InGrid (entry_point s perp).1
  entry_point-InGrid right perp g = ((omega arith, omega arith), g)
  entry_point-InGrid top perp g = (g, (omega arith, omega arith))
  entry_point-InGrid bottom perp g = (g, (omega arith, omega arith))
  entry_point-InGrid left perp g = ((omega arith, omega arith), g)

  enter_remote_edge-IsOnGrid :
      (now : ℕ) (edge : Text) (f : F) (c : Capturer F)
      → IsNumber fl f
      → IsOnGrid c
      → IsOnGrid (enter_remote_edge fl now edge f c)
  unfolding enter_remote_edge
  enter_remote_edge-IsOnGrid now edge f c num good =
      let (lo, hi) = unit_clamped_bounds f num in
      let (gx, gy) =
        entry_point-InGrid (side_of edge) _ (laws.unit_scales (unit_clamped fl f) lo hi) in
      (gx, (gy, good.1.1))

  crossed-IsOnWire :
      (now : ℕ) (edge : Text) (f : F) (p : Portal F)
      → IsNumber fl f
      → IsOnWire fl p
      → IsOnWire fl (crossed fl now edge f p)
  unfolding crossed
  crossed-IsOnWire now edge f p num good = (
    notify_remote_switch-IsOnGrid _ (enter_remote_edge-IsOnGrid now edge f p.cap num good.0),
    good.1,
  )

  fraction-IsNumber :
      (at : F) (zone size : ℤ) → IsNumber fl at → IsNumber fl (fraction fl at zone size)
  fraction-IsNumber at zone size num = elim (Bool-cases (ltb_ℤ (pos 0) size)) [
    | inl h ↦ rw (h) (laws.fraction_number at zone size h num)
    | inr h ↦ rw (h) laws.half_number
  ]

  fractions-IsNumber :
      (o : Option (F × F)) (p : Portal F)
      → HasNumbers fl o
      → IsNumber fl (fractions fl o p).0 × IsNumber fl (fractions fl o p).1
  fractions-IsNumber none p h = (laws.half_number, laws.half_number)
  fractions-IsNumber (some xy) p h = (
    fraction-IsNumber xy.0 p.zone_x p.screen_w h.0,
    fraction-IsNumber xy.1 p.zone_y p.screen_h h.1,
  )

  on_activated-IsOnWire :
      (now : ℕ) (a : Activation F) (p : Portal F)
      → HasNumbers fl a.cursor_position
      → IsOnWire fl p
      → IsOnWire fl (on_activated fl now a p)
  unfolding on_activated
  on_activated-IsOnWire now a p sane good =
      let (nx, ny) = fractions-IsNumber a.cursor_position p sane in
      let edge = edge_of fl a.barrier_id in
      let num =
        both_branches (IsNumber fl)
          (text_eq edge (bytes_of "top") || text_eq edge (bytes_of "bottom")) nx ny in
      both_branches (IsOnWire fl) (p.want_mod == 0) (crossed-IsOnWire now _ _ _ num good)
        (good.0, All-append (λ g. IsNumber fl g.1) p.gates (_ ∷ []) good.1 (num, tt))

  release-IsOnGrid : (at : ℤ × ℤ) (c : Capturer F) → IsOnGrid c → IsOnGrid (release at c)
  unfolding release
  release-IsOnGrid at c (gx, (gy, sent)) = (gx, (gy, (tt, sent)))

  gate_opened-IsOnWire :
      (now : ℕ) (gates : List (Text × F)) (p : Portal F)
      → All (λ g. IsNumber fl g.1) gates
      → IsOnWire fl p
      → IsOnWire fl (gate_opened fl now gates p)
  unfolding gate_opened
  gate_opened-IsOnWire now [] p h good = good
  gate_opened-IsOnWire now (g ∷ gates) p (num, h) good =
      both_branches (IsOnWire fl) p.stopped (good.0, h)
        (both_branches (IsOnWire fl) (bit_and p.cur_mods p.want_mod == 0)
          (release-IsOnGrid _ p.cap good.0, h) (crossed-IsOnWire now g.0 g.1 _ num (good.0, h)))

  gated_enter-IsOnWire :
      (now : ℕ) (p : Portal F) → IsOnWire fl p → IsOnWire fl (gated_enter fl now p)
  unfolding gated_enter
  gated_enter-IsOnWire now p good = gate_opened-IsOnWire now p.gates p good.1 good

  scrolled-IsOnWire :
      (discrete : Bool) (dx dy : F) (p : Portal F)
      → IsOnWire fl p
      → IsOnWire fl (scrolled fl discrete dx dy p)
  unfolding scrolled
  scrolled-IsOnWire true dx dy p good = (feed_wheel-IsOnGrid _ _ p.cap good.0, good.1)
  scrolled-IsOnWire false dx dy p good =
      (both_branches IsOnGrid _ good.0 (feed_wheel-IsOnGrid _ _ p.cap good.0), good.1)

  feed_event-IsOnGrid :
      (order : List (ℕ × ℕ)) (now : ℕ) (ids : List ℕ) (typ code : ℕ) (value : ℤ) (c : Capturer F)
      → IsOnGrid c
      → IsOnGrid (feed_event fl order now ids typ code value c)
  unfolding feed_event
  feed_event-IsOnGrid order now ids typ code value c good =
      handle_event-IsOnGrid fl order now ids _ c good

  feed-IsOnWire :
      (order : List (ℕ × ℕ)) (now : ℕ) (ids : List ℕ) (e : EiEvent F) (p : Portal F)
      → IsOnWire fl p
      → IsOnWire fl (feed fl order now ids e p)
  unfolding feed
  feed-IsOnWire order now ids (ei_motion dx dy) p good =
      (feed_motion-IsOnGrid fl now ids dx dy p.cap good.0, good.1)
  feed-IsOnWire order now ids (ei_button code press) p good =
      (feed_event-IsOnGrid order now ids _ _ _ p.cap good.0, good.1)
  feed-IsOnWire order now ids (ei_key code press) p good =
      (feed_event-IsOnGrid order now ids _ _ _ p.cap good.0, good.1)
  feed-IsOnWire order now ids (ei_scroll discrete dx dy) p good =
      scrolled-IsOnWire discrete dx dy p good
  feed-IsOnWire order now ids (ei_modifiers mask) p good = good
  feed-IsOnWire order now ids ei_disconnect p good = good

  portal_step-IsOnWire :
      (order : List (ℕ × ℕ)) (now : ℕ) (ids : List ℕ) (s : Step fl) (p : Portal F)
      → IsSane fl s
      → IsOnWire fl p
      → IsOnWire fl (portal_step fl order now ids s p)
  unfolding portal_step on_deactivated release_remote
  portal_step-IsOnWire order now ids (activates a) p sane good =
      on_activated-IsOnWire now a p sane good
  portal_step-IsOnWire order now ids deactivates p sane good =
      (set_active-IsOnGrid now ids true p.cap good.0, good.1)
  portal_step-IsOnWire order now ids gate_opens p sane good = gated_enter-IsOnWire now p good
  portal_step-IsOnWire order now ids reclaims p sane good =
      both_branches (IsOnWire fl) p.cap.active good
        (release-IsOnGrid _ _ (set_active-IsOnGrid now ids true p.cap good.0), good.1)
  portal_step-IsOnWire order now ids (feeds e) p sane good = feed-IsOnWire order now ids e p good

  -- However the driver's steps interleave, the virtual cursor and the coordinates of every packet
  -- sent stay between 0 and 65535, if they were at first and the positions that the portal gives
  -- are numbers.
  pub portal_steps-IsOnWire :
      (order : List (ℕ × ℕ)) (steps : List (ℕ × (List ℕ × Step fl))) (p : Portal F)
      → All (λ s. IsSane fl s.1.1) steps
      → IsOnWire fl p
      → IsOnWire fl (portal_steps fl order steps p)
  unfolding portal_steps
  portal_steps-IsOnWire order [] p sane good = good
  portal_steps-IsOnWire order ((now, (ids, s)) ∷ more) p (sane, rest) good =
      portal_steps-IsOnWire order more _ rest (portal_step-IsOnWire order now ids s p sane good)
