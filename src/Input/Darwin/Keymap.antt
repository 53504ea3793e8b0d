-- ===== src/Input/Darwin/Keymap.antt =====
-- internal/input/keymap_darwin.go: Windows virtual keys to macOS key codes.
use wayland_without_borders.Prelude.{ℕ, Option, none, List, [], ◌∷◌}
use wayland_without_borders.Prelude.Int.{ℤ, pos, negsuc}
use wayland_without_borders.Input.Keymap.{KeyMap, lookup, init_range}
use wayland_without_borders.Input.Darwin.Codes.{
  k_vk_ansi_0, k_vk_ansi_1, k_vk_ansi_2, k_vk_ansi_3, k_vk_ansi_4, k_vk_ansi_5, k_vk_ansi_6,
  k_vk_ansi_7, k_vk_ansi_8, k_vk_ansi_9, k_vk_ansi_a, k_vk_ansi_b, k_vk_ansi_backslash, k_vk_ansi_c,
  k_vk_ansi_comma, k_vk_ansi_d, k_vk_ansi_e, k_vk_ansi_equal, k_vk_ansi_f, k_vk_ansi_g,
  k_vk_ansi_grave, k_vk_ansi_h, k_vk_ansi_i, k_vk_ansi_j, k_vk_ansi_k, k_vk_ansi_keypad0,
  k_vk_ansi_keypad1, k_vk_ansi_keypad2, k_vk_ansi_keypad3, k_vk_ansi_keypad4, k_vk_ansi_keypad5,
  k_vk_ansi_keypad6, k_vk_ansi_keypad7, k_vk_ansi_keypad8, k_vk_ansi_keypad9, k_vk_ansi_kp_clear,
  k_vk_ansi_kp_decimal, k_vk_ansi_kp_divide, k_vk_ansi_kp_minus, k_vk_ansi_kp_multiply,
  k_vk_ansi_kp_plus, k_vk_ansi_l, k_vk_ansi_lbracket, k_vk_ansi_m, k_vk_ansi_minus, k_vk_ansi_n,
  k_vk_ansi_o, k_vk_ansi_p, k_vk_ansi_period, k_vk_ansi_q, k_vk_ansi_quote, k_vk_ansi_r,
  k_vk_ansi_rbracket, k_vk_ansi_s, k_vk_ansi_semicolon, k_vk_ansi_slash, k_vk_ansi_t, k_vk_ansi_u,
  k_vk_ansi_v, k_vk_ansi_w, k_vk_ansi_x, k_vk_ansi_y, k_vk_ansi_z, k_vk_caps_lock, k_vk_command,
  k_vk_control, k_vk_delete, k_vk_down_arrow, k_vk_end, k_vk_escape, k_vk_f1, k_vk_f10, k_vk_f11,
  k_vk_f12, k_vk_f2, k_vk_f3, k_vk_f4, k_vk_f5, k_vk_f6, k_vk_f7, k_vk_f8, k_vk_f9,
  k_vk_forward_delete, k_vk_help, k_vk_home, k_vk_left_arrow, k_vk_mute, k_vk_option,
  k_vk_page_down, k_vk_page_up, k_vk_return, k_vk_right_arrow, k_vk_right_control,
  k_vk_right_option, k_vk_right_shift, k_vk_shift, k_vk_space, k_vk_tab, k_vk_up_arrow,
  k_vk_volume_down, k_vk_volume_up,
}

-- The literal of `vkMap`.
abbrev pub vk_literal : KeyMap
vk_literal =
    (0x08, k_vk_delete)
    ∷ (0x09, k_vk_tab)
    ∷ (0x0D, k_vk_return)
    ∷ (0x14, k_vk_caps_lock)
    ∷ (0x1B, k_vk_escape)
    ∷ (0x20, k_vk_space)
    ∷ (0x21, k_vk_page_up)
    ∷ (0x22, k_vk_page_down)
    ∷ (0x23, k_vk_end)
    ∷ (0x24, k_vk_home)
    ∷ (0x25, k_vk_left_arrow)
    ∷ (0x26, k_vk_up_arrow)
    ∷ (0x27, k_vk_right_arrow)
    ∷ (0x28, k_vk_down_arrow)
    ∷ (0x2D, k_vk_help)
    ∷ (0x2E, k_vk_forward_delete)
    ∷ (0x5B, k_vk_command)
    ∷ (0x5C, k_vk_command)
    ∷ (0x60, k_vk_ansi_keypad0)
    ∷ (0x61, k_vk_ansi_keypad1)
    ∷ (0x62, k_vk_ansi_keypad2)
    ∷ (0x63, k_vk_ansi_keypad3)
    ∷ (0x64, k_vk_ansi_keypad4)
    ∷ (0x65, k_vk_ansi_keypad5)
    ∷ (0x66, k_vk_ansi_keypad6)
    ∷ (0x67, k_vk_ansi_keypad7)
    ∷ (0x68, k_vk_ansi_keypad8)
    ∷ (0x69, k_vk_ansi_keypad9)
    ∷ (0x6A, k_vk_ansi_kp_multiply)
    ∷ (0x6B, k_vk_ansi_kp_plus)
    ∷ (0x6D, k_vk_ansi_kp_minus)
    ∷ (0x6E, k_vk_ansi_kp_decimal)
    ∷ (0x6F, k_vk_ansi_kp_divide)
    ∷ (0x70, k_vk_f1)
    ∷ (0x71, k_vk_f2)
    ∷ (0x72, k_vk_f3)
    ∷ (0x73, k_vk_f4)
    ∷ (0x74, k_vk_f5)
    ∷ (0x75, k_vk_f6)
    ∷ (0x76, k_vk_f7)
    ∷ (0x77, k_vk_f8)
    ∷ (0x78, k_vk_f9)
    ∷ (0x79, k_vk_f10)
    ∷ (0x7A, k_vk_f11)
    ∷ (0x7B, k_vk_f12)
    ∷ (0x90, k_vk_ansi_kp_clear)
    ∷ (0xA0, k_vk_shift)
    ∷ (0xA1, k_vk_right_shift)
    ∷ (0xA2, k_vk_control)
    ∷ (0xA3, k_vk_right_control)
    ∷ (0xA4, k_vk_option)
    ∷ (0xA5, k_vk_right_option)
    ∷ (0xAD, k_vk_mute)
    ∷ (0xAE, k_vk_volume_down)
    ∷ (0xAF, k_vk_volume_up)
    ∷ (0xBA, k_vk_ansi_semicolon)
    ∷ (0xBB, k_vk_ansi_equal)
    ∷ (0xBC, k_vk_ansi_comma)
    ∷ (0xBD, k_vk_ansi_minus)
    ∷ (0xBE, k_vk_ansi_period)
    ∷ (0xBF, k_vk_ansi_slash)
    ∷ (0xC0, k_vk_ansi_grave)
    ∷ (0xDB, k_vk_ansi_lbracket)
    ∷ (0xDC, k_vk_ansi_backslash)
    ∷ (0xDD, k_vk_ansi_rbracket)
    ∷ (0xDE, k_vk_ansi_quote)
    ∷ []

abbrev pub letters : List ℕ
letters =
    k_vk_ansi_a ∷ k_vk_ansi_b ∷ k_vk_ansi_c ∷ k_vk_ansi_d ∷ k_vk_ansi_e ∷ k_vk_ansi_f ∷ k_vk_ansi_g
    ∷ k_vk_ansi_h ∷ k_vk_ansi_i ∷ k_vk_ansi_j ∷ k_vk_ansi_k ∷ k_vk_ansi_l ∷ k_vk_ansi_m
    ∷ k_vk_ansi_n ∷ k_vk_ansi_o ∷ k_vk_ansi_p ∷ k_vk_ansi_q ∷ k_vk_ansi_r ∷ k_vk_ansi_s
    ∷ k_vk_ansi_t ∷ k_vk_ansi_u ∷ k_vk_ansi_v ∷ k_vk_ansi_w ∷ k_vk_ansi_x ∷ k_vk_ansi_y
    ∷ k_vk_ansi_z ∷ []

abbrev pub digits : List ℕ
digits =
    k_vk_ansi_0 ∷ k_vk_ansi_1 ∷ k_vk_ansi_2 ∷ k_vk_ansi_3 ∷ k_vk_ansi_4 ∷ k_vk_ansi_5 ∷ k_vk_ansi_6
    ∷ k_vk_ansi_7 ∷ k_vk_ansi_8 ∷ k_vk_ansi_9 ∷ []

-- The two loops of `init`, as on Linux.
unfoldable pub vk_map : KeyMap
unfolding init_range
vk_map = init_range 0x30 digits (init_range 0x41 letters vk_literal)

-- `VKToKeyCode`
unfoldable pub vk_to_key_code : ℤ → Option ℕ
unfolding lookup vk_map
vk_to_key_code (pos vk) = lookup vk vk_map
vk_to_key_code (negsuc n) = none
