-- ===== src/Examples/Settings.antt =====
-- A short configuration file, loaded (internal/config/config.go).
use wayland_without_borders.Prelude.{◌≡◌, refl, false, none, [], ◌∷◌, ok, if◌then◌else◌}
use wayland_without_borders.Prelude.Int.{ℤ, pos}
use wayland_without_borders.Prelude.Float.{integral_floats}
use wayland_without_borders.Prelude.Text.{bytes_of}
use wayland_without_borders.Config.{Config, with_defaults, load, enabled_edges}
use wayland_without_borders.Config.Loaded.{IsUsable, load-IsUsable}
use wayland_without_borders.Config.Edges.{edges_of, lists_off, enabled_edges_lem}

abbrev file : Config ℤ
file = record {
  host = bytes_of "10.0.0.2";
  key = bytes_of "secret";
  name = [];
  port = pos 0;
  edge = [];
  clipboard = none;
  edges = bytes_of "up" ∷ bytes_of "left" ∷ [];
  switch_modifier = [];
  bidirectional = false;
  keyboard_layout = [];
  accel_multiplier = pos 0;
  inbound_multiplier = pos 3;
}

load-IsUsable_example :
    IsUsable integral_floats (with_defaults integral_floats (bytes_of "a-workstation-name") file)
unfolding load
load-IsUsable_example =
    load-IsUsable integral_floats (bytes_of "a-workstation-name") (ok file)
      (with_defaults integral_floats (bytes_of "a-workstation-name") file) refl refl refl

enabled_edges_lem_example : enabled_edges (bytes_of "up" ∷ bytes_of "left" ∷ []) ≡ (
    if lists_off (bytes_of "up" ∷ bytes_of "left" ∷ [])
    then []
    else edges_of (bytes_of "up" ∷ bytes_of "left" ∷ []))
enabled_edges_lem_example = enabled_edges_lem (bytes_of "up") (bytes_of "left" ∷ [])
