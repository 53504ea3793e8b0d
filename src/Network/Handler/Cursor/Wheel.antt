-- ===== src/Network/Handler/Cursor/Wheel.antt =====
-- The wheel's notches (internal/network/handler.go).
use wayland_without_borders.Prelude.{◌+◌, ◌*◌, ◌≤◌, ◌≡◌, arith, ◌↔◌}
use wayland_without_borders.Prelude.Int.{ℤ, pos, negsuc, pos_part, neg_part}
use wayland_without_borders.Network.Handler.Cursor.{notches}

-- A scroll is never lost and never turned round: no notch exactly for no delta, and otherwise one
-- at least in the delta's direction and 120 units or less for each notch beyond it.
pub notches_lem :
    (d : ℤ)
    → ((notches d ≡ pos 0) ↔ (d ≡ pos 0))
      × (neg_part d ≡ 0 → neg_part (notches d) ≡ 0)
      × (pos_part d ≡ 0 → pos_part (notches d) ≡ 0)
      × (120 * pos_part (notches d) ≤ pos_part d + 119)
      × (120 * neg_part (notches d) ≤ neg_part d + 119)
unfolding notches
notches_lem (pos n) = ground arith
notches_lem (negsuc n) = ground arith
