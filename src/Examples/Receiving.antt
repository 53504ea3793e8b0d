-- ===== src/Examples/Receiving.antt =====
-- The receive loop on a short input, and a queue that does not drain
-- (internal/network/receiver.go).
use wayland_without_borders.Prelude.{◌-◌, ◌≡◌, none, [], ◌∷◌, ltb, replicate, arith}
use wayland_without_borders.Prelude.Float.{integral_floats}
use wayland_without_borders.Network.Devices.{virtual_keyboard, virtual_mouse}
use wayland_without_borders.Network.Receiver.{SendStallTracker, liveness_timeout, stalled}
use wayland_without_borders.Network.Receiver.Stall.{looks, stalled-NeverDrains}
use wayland_without_borders.Network.Receiver.Loop.{receive_loop}
use wayland_without_borders.Network.Receiver.Loop.Ends.{OnSome, Ends, receive_loop-Ends}
use wayland_without_borders.Examples.Wire.{counting, idle}
use wayland_without_borders.Examples.Handling.{takes, any_order, counter, resting, world}

receive_loop-Ends_example :
    OnSome
      (Ends counting integral_floats
        (virtual_keyboard takes any_order)
        (virtual_mouse takes)
        counter)
      (receive_loop counting integral_floats
        (virtual_keyboard takes any_order)
        (virtual_mouse takes)
        counter
        4
        (λ n. world)
        (λ n. none)
        (idle (replicate 40 1), resting))
receive_loop-Ends_example =
    receive_loop-Ends counting integral_floats (virtual_keyboard takes any_order)
      (virtual_mouse takes) counter 4 (λ n. world) (λ n. none) (idle (replicate 40 1), resting)
      (omega arith)

abbrev tracker : SendStallTracker
tracker = record { last_progress = 1000000000; last_out_q = 3 }

stalled-NeverDrains_example :
    (stalled (looks tracker ((3, 6000000000) ∷ (5, 11000000000) ∷ [])) 5 17000000000).1
    ≡ ltb liveness_timeout (17000000000 - tracker.last_progress)
unfolding looks stalled
stalled-NeverDrains_example =
    stalled-NeverDrains ((3, 6000000000) ∷ (5, 11000000000) ∷ []) tracker 5 17000000000
      (omega arith, omega arith, (omega arith, omega arith, tt)) (omega arith) (omega arith)
