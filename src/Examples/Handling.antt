-- ===== src/Examples/Handling.antt =====
-- Keys and moves on the virtual devices, with a kernel that takes every event and one that takes
-- none (internal/network/handler.go and internal/input).
use wayland_without_borders.Prelude.{
  ℕ, ◌+◌, ◌≡◌, inl, refl, true, false, Option, none, some, List, [], ◌∷◌, arith,
}
use wayland_without_borders.Prelude.Int.{ℤ, pos, to_u32}
use wayland_without_borders.Prelude.Float.{integral_floats}
use wayland_without_borders.Protocol.Types
use wayland_without_borders.Protocol.Packet.{Packet, KeyboardData, new_packet}
use wayland_without_borders.Input.Codes.{key_a, key_leftctrl, key_rightalt, key_leftshift}
use wayland_without_borders.Input.Keymap.{vk_map, vk_to_key_code}
use wayland_without_borders.Input.Keymap.Reverse.{key_code_to_vk, key_code_to_vk-vk_to_key_code}
use wayland_without_borders.Input.Keymap.Registered.{contains}
use wayland_without_borders.Input.Uinput
use wayland_without_borders.Input.Uinput.{
  VirtualKeyboard, key_down, key_up, release_all, write_event, after_key, add_key, release_loop,
  sync_released,
}
use wayland_without_borders.Input.Uinput.Keyboard.{is_down, InSync, key_down-InSync}
use wayland_without_borders.Input.Uinput.Release.{release_all_forgets}
use wayland_without_borders.Network.Devices.{ClipboardHandler, virtual_keyboard, virtual_mouse}
use wayland_without_borders.Network.Handler.Keys.{
  KeyState, is_ctrl_vk, is_right_alt_vk, has_bit, key_code_for_packet, handle_keyboard,
}
use wayland_without_borders.Network.Handler.Keys.Chords.{
  IsCtrl, IsAltGr, IsOther, handle_keys, alt_gr_chord,
}
use wayland_without_borders.Network.Handler.Keys.Held.{handle_keyboard-InSync}
use wayland_without_borders.Network.Handler.Cursor.{CursorState, tracked}
use wayland_without_borders.Network.Handler.Cursor.Moves.{InSpace, tracked-InSpace}
use wayland_without_borders.Network.Handler.{World, HandlerState, handle_packet, release_held_keys}
use wayland_without_borders.Network.Handler.Released.{
  handle_packets, no_stuck_key, no_stuck_key_disconnected,
}

abbrev pub takes : ℕ → Option ℕ
takes n = none

abbrev refuses : ℕ → Option ℕ
refuses n = some 5

abbrev pub any_order : List ℕ → List ℕ
any_order codes = codes

abbrev fresh : VirtualKeyboard
fresh = record { fd = record { written = []; calls = 0 }; pressed = [] }

fresh-InSync : InSync fresh
unfolding is_down
fresh-InSync code = refl

abbrev holding : VirtualKeyboard
holding = (key_down takes fresh key_a).0

holding-InSync : InSync holding
holding-InSync = key_down-InSync takes fresh key_a fresh-InSync

release_all_forgets_example :
    (is_down key_a (release_all refuses any_order holding).0.fd.written ≡ true)
    × ((release_all refuses any_order holding).0.pressed ≡ [])
    × ((release_all refuses any_order holding).1 ≡ some 5)
unfolding key_down write_event after_key add_key
release_all_forgets_example =
    release_all_forgets refuses any_order holding key_a 5 pressed holding-InSync held refl
  where
    pressed : holding.pressed ≡ key_a ∷ []
    pressed = refl

    held : contains key_a holding.pressed ≡ true
    held = refl

key_code_to_vk-vk_to_key_code_example : key_code_to_vk vk_map key_a ≡ some (pos 0x41)
unfolding vk_to_key_code
key_code_to_vk-vk_to_key_code_example =
    key_code_to_vk-vk_to_key_code vk_map (pos 0x41) key_a (λ k v. refl) letter
  where
    letter : vk_to_key_code (pos 0x41) ≡ some key_a
    letter = refl

-- The packets of the left Ctrl, of AltGr and of Shift, and their releases.
abbrev key : ℤ → ℤ → KeyboardData
key vk flags = record { date_time = pos 0; w_vk = vk; dw_flags = flags }

abbrev ctrl : KeyboardData
ctrl = key (pos 0x11) (pos 0)

abbrev ctrl_release : KeyboardData
ctrl_release = key (pos 0x11) (pos 0x80)

abbrev alt_gr : KeyboardData
alt_gr = key (pos 0x12) (pos 0x01)

abbrev alt_gr_release : KeyboardData
alt_gr_release = key (pos 0x12) (pos 0x81)

abbrev shift : KeyboardData
shift = key (pos 0x10) (pos 0)

ctrl-IsCtrl : IsCtrl [] ctrl key_leftctrl false
unfolding is_ctrl_vk key_code_for_packet has_bit to_u32
ctrl-IsCtrl = record { vk = refl; key = refl; way = refl }

ctrl_release-IsCtrl : IsCtrl [] ctrl_release key_leftctrl true
unfolding is_ctrl_vk key_code_for_packet has_bit to_u32
ctrl_release-IsCtrl = record { vk = refl; key = refl; way = refl }

alt_gr-IsAltGr : IsAltGr [] alt_gr key_rightalt false
unfolding is_right_alt_vk key_code_for_packet has_bit to_u32
alt_gr-IsAltGr = record { vk = refl; key = refl; way = refl }

alt_gr_release-IsAltGr : IsAltGr [] alt_gr_release key_rightalt true
unfolding is_right_alt_vk key_code_for_packet has_bit to_u32
alt_gr_release-IsAltGr = record { vk = refl; key = refl; way = refl }

shift-IsOther : IsOther [] shift key_leftshift false
unfolding is_ctrl_vk is_right_alt_vk key_code_for_packet has_bit to_u32
shift-IsOther = record { not_ctrl = refl; not_alt = refl; key = refl; way = refl }

abbrev idle_keys : KeyState VirtualKeyboard
idle_keys = record {
  keyboard = fresh;
  pending_ctrl = false;
  pending_ctrl_code = 0;
  suppress_ctrl_up = false;
}

press_fine : (key_down takes fresh key_leftctrl).1 ≡ none
unfolding key_down
press_fine = refl

alt_gr_chord_example :
    handle_keys
      (virtual_keyboard takes any_order)
      idle_keys
      (ctrl ∷ alt_gr ∷ alt_gr_release ∷ ctrl_release ∷ [])
      []
    ≡ record {
      keyboard = (key_up takes (key_down takes fresh key_rightalt).0 key_rightalt).0;
      pending_ctrl = false;
      pending_ctrl_code = key_leftctrl;
      suppress_ctrl_up = false;
    }
alt_gr_chord_example =
    alt_gr_chord (virtual_keyboard takes any_order) idle_keys [] ctrl alt_gr alt_gr_release
      ctrl_release key_leftctrl key_rightalt ctrl-IsCtrl alt_gr-IsAltGr alt_gr_release-IsAltGr
      ctrl_release-IsCtrl

handle_keyboard-InSync_example :
    InSync (handle_keyboard (virtual_keyboard takes any_order) idle_keys shift []).keyboard
handle_keyboard-InSync_example =
    handle_keyboard-InSync takes any_order idle_keys shift [] fresh-InSync

abbrev centred : CursorState Uinput.Fd
centred = record {
  mouse = record { written = []; calls = 0 };
  in_x = pos 32000;
  in_y = pos 32000;
  last_in_x = pos 30000;
  last_in_y = pos 30000;
  in_seeded = true;
}

tracked-InSpace_example :
    InSpace
      (tracked integral_floats (virtual_mouse takes) (pos 2) centred (pos 30010) (pos 65535)).in_x
    × InSpace
        (tracked integral_floats (virtual_mouse takes) (pos 2) centred (pos 30010) (pos 65535)).in_y
tracked-InSpace_example =
    tracked-InSpace integral_floats (virtual_mouse takes) (pos 2) centred (pos 30010) (pos 65535)
      (omega arith, omega arith) (omega arith, omega arith)

abbrev pub counter : ClipboardHandler
counter = record { State = ℕ; handle_packet = λ n p. n + 1 }

abbrev State : Type 0
State =
    HandlerState integral_floats (virtual_keyboard takes any_order) (virtual_mouse takes) counter

abbrev pub resting : State
resting = record {
  keys = idle_keys;
  cursor = centred;
  clipboard = none;
  activated_at = none;
  inbound_multiplier = pos 1;
  keyboard_layout = [];
  has_on_activated = true;
  has_on_reclaimed = true;
  notices = [];
}

abbrev waiting : State
waiting = record resting {
  keys = record idle_keys { pending_ctrl = true; pending_ctrl_code = key_leftctrl };
}

abbrev pub world : World
world = record { now = 9; should_activate = some false; should_reclaim = none }

abbrev handle : State → Packet → State
handle =
    handle_packet integral_floats (virtual_keyboard takes any_order) (virtual_mouse takes) counter
      world

abbrev handle_all : State → List (World × Packet) → State
handle_all =
    handle_packets integral_floats (virtual_keyboard takes any_order) (virtual_mouse takes) counter

abbrev pub shift_packet : Packet
shift_packet = record (new_packet Types.keyboard 7 8) { keyboard = shift }

abbrev hide : Packet
hide = new_packet Types.hide_mouse 7 8

abbrev arrival : Packet
arrival = new_packet Types.machine_switched 7 8

no_stuck_key_example :
    is_down key_leftshift
      (handle (handle_all resting ((world, shift_packet) ∷ [])) hide).keys.keyboard.fd.written
    ≡ false
no_stuck_key_example =
    no_stuck_key integral_floats (virtual_mouse takes) counter takes (λ n. refl) any_order
      (λ a xs. refl) ((world, shift_packet) ∷ []) world hide resting key_leftshift fresh-InSync
      (inl refl)

no_stuck_key_disconnected_example :
    is_down key_leftshift
      (release_held_keys integral_floats
        (virtual_keyboard takes any_order)
        (virtual_mouse takes)
        counter
        (handle_all resting ((world, shift_packet) ∷ []))).keys.keyboard.fd.written
    ≡ false
no_stuck_key_disconnected_example =
    no_stuck_key_disconnected integral_floats (virtual_mouse takes) counter takes (λ n. refl)
      any_order (λ a xs. refl) ((world, shift_packet) ∷ []) resting key_leftshift fresh-InSync
