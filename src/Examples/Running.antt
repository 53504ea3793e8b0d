-- ===== src/Examples/Running.antt =====
-- Rounds of the program's loop: an attempt that fails, a session on a short input, and a session in
-- which libei disconnects (cmd/mwb/main.go).
use wayland_without_borders.Prelude.{◌≡◌, refl, Bool, true, false, inl, none, [], ◌∷◌, replicate}
use wayland_without_borders.Prelude.Int.{pos}
use wayland_without_borders.Prelude.Float.{integral_floats}
use wayland_without_borders.Prelude.Text.{bytes_of}
use wayland_without_borders.Input.Uinput.Keyboard.{is_down}
use wayland_without_borders.Network.Devices.{virtual_keyboard, virtual_mouse}
use wayland_without_borders.Network.Receiver.Loop.Ends.{OnSome}
use wayland_without_borders.Config.{Config, enabled_edges}
use wayland_without_borders.Program.{
  Settings, Session, Program, Winner, outbound, inbound, settings, new_handler, sessions,
}
use wayland_without_borders.Program.Sessions.{
  IsBetween, IsBlocked, sessions-IsBetween, sessions-IsBlocked,
}
use wayland_without_borders.Program.Resources.{held_after}
use wayland_without_borders.Capture.Portal.Start.{run_wayland_stages}
use wayland_without_borders.Examples.Wire.{counting, idle}
use wayland_without_borders.Examples.Handling.{takes, any_order, counter, world}

abbrev config : Config integral_floats.F
config = record {
  host = bytes_of "desk";
  key = bytes_of "a key";
  name = bytes_of "laptop";
  port = pos 15100;
  edge = bytes_of "left";
  clipboard = none;
  edges = [];
  switch_modifier = [];
  bidirectional = true;
  keyboard_layout = bytes_of "us";
  accel_multiplier = pos 2;
  inbound_multiplier = pos 1;
}

abbrev both_ways : Settings
both_ways = settings integral_floats (record { edge = []; bidi = true; no_clipboard = true }) config

abbrev first :
    Program counting integral_floats
      (virtual_keyboard takes any_order)
      (virtual_mouse takes)
      counter
first = record {
  handler =
      new_handler counting integral_floats (virtual_keyboard takes any_order) (virtual_mouse takes)
        counter (record { fd = record { written = []; calls = 0 }; pressed = [] })
        (record { written = []; calls = 0 }) config (bytes_of "us");
  log = [];
  ends = [];
  blocked = false;
}

abbrev meeting :
    Bool
    → Winner counting integral_floats
        (virtual_keyboard takes any_order)
        (virtual_mouse takes)
        counter
    → Session counting integral_floats
        (virtual_keyboard takes any_order)
        (virtual_mouse takes)
        counter
meeting disconnects winner = record {
  winner = winner;
  wayland = true;
  answers = λ s. none;
  disconnects = disconnects;
  manager = 0;
  worlds = λ n. world;
  fate = λ n. none;
}

first-IsBetween :
    IsBetween counting integral_floats
      (virtual_mouse takes)
      counter
      takes
      (λ n. refl)
      any_order
      (λ a xs. refl)
      first
unfolding new_handler is_down held_after
first-IsBetween = record {
  in_sync = λ a. refl;
  up = λ a. refl;
  free = refl;
  left = tt;
  returned = tt;
  running = refl;
}

sessions-IsBetween_example :
    OnSome
      (IsBetween counting integral_floats
        (virtual_mouse takes)
        counter
        takes
        (λ n. refl)
        any_order
        (λ a xs. refl))
      (sessions counting integral_floats
        (virtual_keyboard takes any_order)
        (virtual_mouse takes)
        counter
        both_ways
        (meeting false (outbound none) ∷ meeting false (inbound (idle (replicate 40 1))) ∷ [])
        first)
sessions-IsBetween_example =
    sessions-IsBetween counting integral_floats (virtual_mouse takes) counter takes (λ n. refl)
      any_order (λ a xs. refl) both_ways
      (meeting false (outbound none) ∷ meeting false (inbound (idle (replicate 40 1))) ∷ []) first
      first-IsBetween (refl, (refl, tt))

sessions-IsBlocked_example :
    (sessions counting integral_floats
        (virtual_keyboard takes any_order)
        (virtual_mouse takes)
        counter
        both_ways
        (meeting true (inbound (idle (replicate 40 1))) ∷ meeting false (outbound none) ∷ [])
        first
      ≡ sessions counting integral_floats
          (virtual_keyboard takes any_order)
          (virtual_mouse takes)
          counter
          both_ways
          (meeting true (inbound (idle (replicate 40 1))) ∷ [])
          first)
    × OnSome
        (IsBlocked counting integral_floats
          (virtual_mouse takes)
          counter
          takes
          (λ n. refl)
          any_order
          (λ a xs. refl)
          both_ways.clipboard)
        (sessions counting integral_floats
          (virtual_keyboard takes any_order)
          (virtual_mouse takes)
          counter
          both_ways
          (meeting true (inbound (idle (replicate 40 1))) ∷ meeting false (outbound none) ∷ [])
          first)
unfolding settings enabled_edges run_wayland_stages
sessions-IsBlocked_example =
    sessions-IsBlocked counting integral_floats (virtual_mouse takes) counter takes (λ n. refl)
      any_order (λ a xs. refl) both_ways (meeting true (inbound (idle (replicate 40 1))))
      (meeting false (outbound none) ∷ []) (idle (replicate 40 1)) first first-IsBetween refl refl
      refl refl refl (inl refl)
