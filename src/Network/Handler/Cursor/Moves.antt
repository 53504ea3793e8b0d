-- ===== src/Network/Handler/Cursor/Moves.antt =====
-- Where an inbound move puts the cursor (internal/network/handler.go).
use wayland_without_borders.Prelude.{◌≡◌, true, false, arith, ◌⊎◌, inl, inr}
use wayland_without_borders.Prelude.Int.{ℤ, pos, ◌≤ℤ◌}
use wayland_without_borders.Prelude.Float.{Float64}
use wayland_without_borders.Network.Devices.{MouseDevice}
use wayland_without_borders.Network.Handler.Cursor.{
  CursorState, effective_multiplier, is_jump, scaled, tracked, move_inbound, clamp65535,
}

-- A coordinate of the absolute space.
abbrev pub InSpace : ℤ → Type 0
InSpace z = (pos 0 ≤ℤ z) × (z ≤ℤ pos 65535)

clamp65535-InSpace : (z : ℤ) → InSpace (clamp65535 z)
unfolding clamp65535
clamp65535-InSpace z = ground arith

module _ (fl : Float64) (md : MouseDevice) where
  scaled-InSpace :
      (mult : fl.F) (at last reported : ℤ) → InSpace (scaled fl md mult at last reported)
  unfolding scaled
  scaled-InSpace mult at last reported = clamp65535-InSpace _

  -- Whatever the gain and the history, a report within the space moves the cursor within it.
  pub tracked-InSpace :
      (mult : fl.F) (s : CursorState md.State) (x y : ℤ)
      → InSpace x
      → InSpace y
      → InSpace (tracked fl md mult s x y).in_x × InSpace (tracked fl md mult s x y).in_y
  unfolding tracked
  tracked-InSpace mult s x y hx hy = ground (
    arith,
    scaled-InSpace (effective_multiplier fl md mult) s.in_x s.last_in_x x,
    scaled-InSpace (effective_multiplier fl md mult) s.in_y s.last_in_y y,
  )

  -- With no gain asked for, or at a teleport, the mouse is told the reported position, and the
  -- tracker remembers it.
  pub move_inbound_mirrors :
      (mult : fl.F) (s : CursorState md.State) (x y : ℤ)
      → (is_jump fl md s x y ≡ true)
        ⊎ (fl.eq (effective_multiplier fl md mult) (fl.of_int (pos 1)) ≡ true)
      → move_inbound fl md mult s x y ≡ (
        record {
          mouse = (md.move_to s.mouse x y).0;
          in_x = x;
          in_y = y;
          last_in_x = x;
          last_in_y = y;
          in_seeded = true;
        },
        (md.move_to s.mouse x y).1,
      )
  unfolding move_inbound tracked
  move_inbound_mirrors mult s x y (inl e) = rw e
  move_inbound_mirrors mult s x y (inr e) = ground arith

  -- The first move after the cursor arrived is a teleport.
  pub is_jump_unseeded :
      (s : CursorState md.State) (x y : ℤ) → s.in_seeded ≡ false → is_jump fl md s x y ≡ true
  unfolding is_jump
  is_jump_unseeded s x y e = rw e
