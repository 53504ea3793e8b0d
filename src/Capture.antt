-- ===== src/Capture.antt =====
-- internal/capture/capture_linux.go: who owns the cursor, and what local input becomes on the way to
-- the remote machine. What a method does to the world, packets to send and commands to run, is
-- recorded as outputs, the last one first; a failed send is only logged. Locks are not modelled: each
-- method is one step. Times are in nanoseconds, and `none` is the zero time.
pub mod Xinput
pub mod Display
pub mod Control
pub mod Motion
pub mod Events
pub mod Portal
use wayland_without_borders.Prelude.{
  ℕ, ◌+◌, ◌/◌, Bool, true, false, ◌&&◌, ◌||◌, not, Option, none, some, List, [], ◌∷◌, ltb,
  if◌then◌else◌,
}
use wayland_without_borders.Prelude.Int.{ℤ, pos}
use wayland_without_borders.Prelude.Text.{Text, bytes_of, text_eq}
use wayland_without_borders.Protocol.Packet.{Packet}

abbrev pub norm_max : ℕ
norm_max = 65535

abbrev pub switch_margin : ℕ
switch_margin = 6553

abbrev pub return_edge_margin : ℕ
return_edge_margin = 1638

abbrev pub reclaim_edge_margin : ℕ
reclaim_edge_margin = 8192

-- The cases of `switch c.activeEdge`, of which the left edge is the default.
pub data Side : Type 0 where
  right top bottom left : Side

unfoldable pub side_of : Text → Side
side_of edge =
    if text_eq edge (bytes_of "right")
    then right
    else if text_eq edge (bytes_of "top")
    then top
    else if text_eq edge (bytes_of "bottom")
    then bottom
    else left

pub data Output : Type 0 where
  send : Packet → Output
  return_local warp : ℤ → ℤ → Output
  enable_xinput disable_xinput : List ℕ → Output

-- The connection is given by the two machines' ids.
pub record Capturer (F : Type 0) : Type 0 where
  pub machine_id : ℕ
  pub remote_id : ℕ
  pub width : ℤ
  pub height : ℤ
  pub active : Bool
  pub edge_side : Text
  pub last_switch : Option ℕ
  pub switch_sent : Option ℕ
  pub last_activated : Option ℕ
  pub remote_x : ℤ
  pub remote_y : ℤ
  pub acc_x : F
  pub acc_y : F
  pub active_edge : Text
  pub accel_mult : F
  pub edge_y : ℤ
  pub can_switch : Bool
  pub can_return : Bool
  pub hotkey_ctrl : Bool
  pub hotkey_alt : Bool
  pub disabled_ids : List ℕ
  pub has_return_local : Bool
  pub outputs : List Output
