-- ===== src/Network/Handler/Keys.antt =====
-- The keyboard half of internal/network/handler.go: the delayed Ctrl that keeps AltGr chords clean.
-- The handler's keyboard is never nil, as cmd/mwb/main.go sets it.
pub mod Chords
pub mod Kept
pub mod Held
use wayland_without_borders.Prelude.{
  ℕ, ◌/◌, ◌%◌, Bool, true, false, ◌&&◌, ◌||◌, not, Option, none, some, ◌==◌, if◌then◌else◌, GoError,
}
use wayland_without_borders.Prelude.Int.{ℤ, pos, eqb_ℤ, to_u32}
use wayland_without_borders.Prelude.Text.{Text}
use wayland_without_borders.Protocol.Packet.{KeyboardData}
use wayland_without_borders.Input.Codes.{
  key_leftshift, key_leftctrl, key_rightctrl, key_leftalt, key_rightalt,
}
use wayland_without_borders.Input.Keymap.Layout.{vk_to_key_code_for_layout}
use wayland_without_borders.Network.Devices.{KeyboardDevice}

-- `flags & bit != 0`, for a bit that is a power of two.
unfoldable pub has_bit : ℕ → ℤ → Bool
has_bit bit flags = to_u32 flags / bit % 2 == 1

abbrev pub llkhf_extended : ℕ
llkhf_extended = 0x01

abbrev pub llkhf_up : ℕ
llkhf_up = 0x80

-- The handler's keyboard and the fields `pendingCtrl`, `pendingCtrlCode` and `suppressCtrlUp`.
pub record KeyState (K : Type 0) : Type 0 where
  pub keyboard : K
  pub pending_ctrl : Bool
  pub pending_ctrl_code : ℕ
  pub suppress_ctrl_up : Bool

unfoldable pub is_ctrl_vk : ℤ → Bool
is_ctrl_vk vk = eqb_ℤ vk (pos 0x11) || eqb_ℤ vk (pos 0xA2) || eqb_ℤ vk (pos 0xA3)

unfoldable pub is_right_alt_vk : ℤ → ℤ → Bool
is_right_alt_vk vk flags =
    eqb_ℤ vk (pos 0xA5) || eqb_ℤ vk (pos 0x12) && has_bit llkhf_extended flags

-- `keyCodeForPacket`
unfoldable pub key_code_for_packet : KeyboardData → Text → Option ℕ
key_code_for_packet kd layout =
    if eqb_ℤ kd.w_vk (pos 0x10)
    then some key_leftshift
    else if eqb_ℤ kd.w_vk (pos 0x11)
    then (if has_bit llkhf_extended kd.dw_flags then some key_rightctrl else some key_leftctrl)
    else if eqb_ℤ kd.w_vk (pos 0x12)
    then (if has_bit llkhf_extended kd.dw_flags then some key_rightalt else some key_leftalt)
    else vk_to_key_code_for_layout kd.w_vk layout

module _ (kb : KeyboardDevice) where
  open kb use {State, key_down, key_up, release_all}

  abbrev Keys : Type 0
  Keys = KeyState State

  -- `flushPendingCtrl`
  unfoldable pub flush_pending_ctrl : Keys → Keys × GoError
  flush_pending_ctrl s =
      let (k, e) = key_down s.keyboard s.pending_ctrl_code in
      if s.pending_ctrl then (record s { keyboard = k; pending_ctrl = false }, e) else (s, none)

  -- `handlePendingCtrl` on the release of a pending Ctrl: the press, and if that is no error the
  -- release. Errors are logged.
  abbrev tap : Keys → ℕ → State × GoError → Keys
  tap s code (k, none) = record s { keyboard = (key_up k code).0; pending_ctrl = false }
  tap s code (k, some e) = record s { keyboard = k; pending_ctrl = false }

  -- `handlePendingCtrl`, with whether the packet is used up.
  unfoldable pub handle_pending_ctrl : Keys → ℤ → ℤ → ℕ → Bool → Keys × Bool
  handle_pending_ctrl s vk flags code is_up =
      if is_ctrl_vk vk
      then (if is_up
          then (if s.pending_ctrl
              then (tap s code (key_down s.keyboard code), true)
              else if s.suppress_ctrl_up
              then (record s { suppress_ctrl_up = false }, true)
              else (s, false))
          else (record s { pending_ctrl = true; pending_ctrl_code = code }, true))
      else if not is_up && is_right_alt_vk vk flags && s.pending_ctrl
      then (record s { pending_ctrl = false; suppress_ctrl_up = true }, false)
      else (s, false)

  -- What follows in `handleKeyboard`: the flush, and if that is no error the key itself.
  abbrev press_or_release : ℕ → Bool → Keys × GoError → Keys
  press_or_release code is_up (s, some e) = s
  press_or_release code is_up (s, none) =
      if is_up
      then record s { keyboard = (key_up s.keyboard code).0 }
      else record s { keyboard = (key_down s.keyboard code).0 }

  abbrev unless_used : ℕ → Bool → Keys × Bool → Keys
  unless_used code is_up (s, true) = s
  unless_used code is_up (s, false) = press_or_release code is_up (flush_pending_ctrl s)

  unfoldable pub handle_known : Keys → KeyboardData → ℕ → Keys
  handle_known s kd code =
      let is_up = has_bit llkhf_up kd.dw_flags in
      unless_used code is_up (handle_pending_ctrl s kd.w_vk kd.dw_flags code is_up)

  -- `handleKeyboard`
  unfoldable pub handle_keyboard : Keys → KeyboardData → Text → Keys
  handle_keyboard s kd layout = elim (key_code_for_packet kd layout) [
    | none ↦ s
    | some code ↦ handle_known s kd code
  ]

  -- `releaseAllKeys`; an error of `ReleaseAll` is logged.
  unfoldable pub release_all_keys : Keys → Keys
  release_all_keys s = record s {
    keyboard = (release_all s.keyboard).0;
    pending_ctrl = false;
    suppress_ctrl_up = false;
  }
