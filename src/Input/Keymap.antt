-- ===== src/Input/Keymap.antt =====
-- internal/input/keymap_linux.go: Windows virtual keys to evdev keys, with the layouts' overrides.
pub mod Layout
pub mod Reverse
pub mod Registered
use wayland_without_borders.Prelude.{ℕ, ◌+◌, Option, none, some, List, [], ◌∷◌, ◌==◌, if◌then◌else◌}
use wayland_without_borders.Prelude.Int.{ℤ, pos, negsuc}
use wayland_without_borders.Input.Codes.{
  key_0, key_1, key_102nd, key_2, key_3, key_4, key_5, key_6, key_7, key_8, key_9, key_a,
  key_apostrophe, key_b, key_backslash, key_backspace, key_c, key_capslock, key_comma, key_compose,
  key_d, key_delete, key_dot, key_down, key_e, key_end, key_enter, key_equal, key_esc, key_f,
  key_f1, key_f10, key_f11, key_f12, key_f2, key_f3, key_f4, key_f5, key_f6, key_f7, key_f8, key_f9,
  key_g, key_grave, key_h, key_home, key_i, key_insert, key_j, key_k, key_kp0, key_kp1, key_kp2,
  key_kp3, key_kp4, key_kp5, key_kp6, key_kp7, key_kp8, key_kp9, key_kpasterisk, key_kpdot,
  key_kpminus, key_kpplus, key_kpslash, key_l, key_left, key_leftalt, key_leftbrace, key_leftctrl,
  key_leftmeta, key_leftshift, key_m, key_minus, key_mute, key_n, key_numlock, key_o, key_p,
  key_pagedown, key_pageup, key_pause, key_q, key_r, key_right, key_rightalt, key_rightbrace,
  key_rightctrl, key_rightmeta, key_rightshift, key_s, key_scrolllock, key_semicolon, key_slash,
  key_space, key_sysrq, key_t, key_tab, key_u, key_up, key_v, key_volumedown, key_volumeup, key_w,
  key_x, key_y, key_z, vk_a, vk_m, vk_oem1, vk_oem102, vk_oem2, vk_oem3, vk_oem4, vk_oem5, vk_oem6,
  vk_oem7, vk_oem8, vk_oemcomma, vk_oemdot, vk_oemminus, vk_oemplus, vk_q, vk_w, vk_y, vk_z,
}

-- A Go map as an association list without repeated keys.
abbrev pub KeyMap : Type 0
KeyMap = List (ℕ × ℕ)

unfoldable pub lookup : ℕ → KeyMap → Option ℕ
lookup vk [] = none
lookup vk ((old, code) ∷ rest) = if old == vk then some code else lookup vk rest

-- `m[k] = v`
unfoldable pub insert : ℕ → ℕ → KeyMap → KeyMap
insert vk code [] = (vk, code) ∷ []
insert vk code ((old, c) ∷ rest) =
    if old == vk then (vk, code) ∷ rest else (old, c) ∷ insert vk code rest

-- `profile(pairs...)`: the pairs in their order, into an empty map.
unfoldable pub profile_loop : List (ℕ × ℕ) → KeyMap → KeyMap
unfolding insert
profile_loop [] out = out
profile_loop ((vk, key) ∷ pairs) out = profile_loop pairs (insert vk key out)

unfoldable pub profile : List (ℕ × ℕ) → KeyMap
unfolding profile_loop
profile pairs = profile_loop pairs []

-- The literal of `vkMap`.
abbrev pub vk_literal : KeyMap
vk_literal =
    (0x08, key_backspace)
    ∷ (0x09, key_tab)
    ∷ (0x0D, key_enter)
    ∷ (0x13, key_pause)
    ∷ (0x14, key_capslock)
    ∷ (0x1B, key_esc)
    ∷ (0x20, key_space)
    ∷ (0x21, key_pageup)
    ∷ (0x22, key_pagedown)
    ∷ (0x23, key_end)
    ∷ (0x24, key_home)
    ∷ (0x25, key_left)
    ∷ (0x26, key_up)
    ∷ (0x27, key_right)
    ∷ (0x28, key_down)
    ∷ (0x2C, key_sysrq)
    ∷ (0x2D, key_insert)
    ∷ (0x2E, key_delete)
    ∷ (0x5B, key_leftmeta)
    ∷ (0x5C, key_rightmeta)
    ∷ (0x5D, key_compose)
    ∷ (0x60, key_kp0)
    ∷ (0x61, key_kp1)
    ∷ (0x62, key_kp2)
    ∷ (0x63, key_kp3)
    ∷ (0x64, key_kp4)
    ∷ (0x65, key_kp5)
    ∷ (0x66, key_kp6)
    ∷ (0x67, key_kp7)
    ∷ (0x68, key_kp8)
    ∷ (0x69, key_kp9)
    ∷ (0x6A, key_kpasterisk)
    ∷ (0x6B, key_kpplus)
    ∷ (0x6D, key_kpminus)
    ∷ (0x6E, key_kpdot)
    ∷ (0x6F, key_kpslash)
    ∷ (0x70, key_f1)
    ∷ (0x71, key_f2)
    ∷ (0x72, key_f3)
    ∷ (0x73, key_f4)
    ∷ (0x74, key_f5)
    ∷ (0x75, key_f6)
    ∷ (0x76, key_f7)
    ∷ (0x77, key_f8)
    ∷ (0x78, key_f9)
    ∷ (0x79, key_f10)
    ∷ (0x7A, key_f11)
    ∷ (0x7B, key_f12)
    ∷ (0x90, key_numlock)
    ∷ (0x91, key_scrolllock)
    ∷ (0xA0, key_leftshift)
    ∷ (0xA1, key_rightshift)
    ∷ (0xA2, key_leftctrl)
    ∷ (0xA3, key_rightctrl)
    ∷ (0xA4, key_leftalt)
    ∷ (0xA5, key_rightalt)
    ∷ (0xAD, key_mute)
    ∷ (0xAE, key_volumedown)
    ∷ (0xAF, key_volumeup)
    ∷ (vk_oem1, key_semicolon)
    ∷ (vk_oemplus, key_equal)
    ∷ (vk_oemcomma, key_comma)
    ∷ (vk_oemminus, key_minus)
    ∷ (vk_oemdot, key_dot)
    ∷ (vk_oem2, key_slash)
    ∷ (vk_oem3, key_grave)
    ∷ (vk_oem4, key_leftbrace)
    ∷ (vk_oem5, key_backslash)
    ∷ (vk_oem6, key_rightbrace)
    ∷ (vk_oem7, key_apostrophe)
    ∷ (vk_oem102, key_102nd)
    ∷ []

abbrev pub letters : List ℕ
letters =
    key_a ∷ key_b ∷ key_c ∷ key_d ∷ key_e ∷ key_f ∷ key_g ∷ key_h ∷ key_i ∷ key_j ∷ key_k ∷ key_l
    ∷ key_m ∷ key_n ∷ key_o ∷ key_p ∷ key_q ∷ key_r ∷ key_s ∷ key_t ∷ key_u ∷ key_v ∷ key_w ∷ key_x
    ∷ key_y ∷ key_z ∷ []

abbrev pub digits : List ℕ
digits = key_0 ∷ key_1 ∷ key_2 ∷ key_3 ∷ key_4 ∷ key_5 ∷ key_6 ∷ key_7 ∷ key_8 ∷ key_9 ∷ []

-- The loops of `init`: consecutive virtual keys from `vk` on.
unfoldable pub init_range : ℕ → List ℕ → KeyMap → KeyMap
unfolding insert
init_range vk [] m = m
init_range vk (code ∷ codes) m = init_range (vk + 1) codes (insert vk code m)

unfoldable pub vk_map : KeyMap
unfolding init_range
vk_map = init_range 0x30 digits (init_range 0x41 letters vk_literal)

-- `VKToKeyCode`; a virtual key is an int32.
unfoldable pub vk_to_key_code : ℤ → Option ℕ
unfolding lookup vk_map
vk_to_key_code (pos vk) = lookup vk vk_map
vk_to_key_code (negsuc n) = none

-- `layoutVKOverrides`

unfoldable pub de_profile : KeyMap
unfolding profile
de_profile = profile (
    (vk_y, key_z)
    ∷ (vk_z, key_y)
    ∷ (vk_oem1, key_leftbrace)
    ∷ (vk_oemplus, key_rightbrace)
    ∷ (vk_oemminus, key_slash)
    ∷ (vk_oem3, key_semicolon)
    ∷ (vk_oem4, key_minus)
    ∷ (vk_oem5, key_grave)
    ∷ (vk_oem6, key_equal)
    ∷ (vk_oem7, key_apostrophe)
    ∷ (vk_oem2, key_backslash)
    ∷ (vk_oem102, key_102nd)
    ∷ [])

unfoldable pub fr_profile : KeyMap
unfolding profile
fr_profile = profile (
    (vk_a, key_q)
    ∷ (vk_q, key_a)
    ∷ (vk_z, key_w)
    ∷ (vk_w, key_z)
    ∷ (vk_m, key_semicolon)
    ∷ (vk_oem7, key_grave)
    ∷ (vk_oem4, key_minus)
    ∷ (vk_oemplus, key_equal)
    ∷ (vk_oem6, key_leftbrace)
    ∷ (vk_oem1, key_rightbrace)
    ∷ (vk_oem3, key_apostrophe)
    ∷ (vk_oem5, key_backslash)
    ∷ (vk_oemcomma, key_m)
    ∷ (vk_oemdot, key_comma)
    ∷ (vk_oem2, key_dot)
    ∷ (vk_oem8, key_slash)
    ∷ (vk_oem102, key_102nd)
    ∷ [])

unfoldable pub be_profile : KeyMap
unfolding profile
be_profile = profile (
    (vk_a, key_q)
    ∷ (vk_q, key_a)
    ∷ (vk_z, key_w)
    ∷ (vk_w, key_z)
    ∷ (vk_m, key_semicolon)
    ∷ (vk_oem7, key_grave)
    ∷ (vk_oem4, key_minus)
    ∷ (vk_oemminus, key_equal)
    ∷ (vk_oem6, key_leftbrace)
    ∷ (vk_oem1, key_rightbrace)
    ∷ (vk_oem3, key_apostrophe)
    ∷ (vk_oem5, key_backslash)
    ∷ (vk_oemdot, key_comma)
    ∷ (vk_oem2, key_dot)
    ∷ (vk_oemplus, key_slash)
    ∷ (vk_oemcomma, key_m)
    ∷ (vk_oem102, key_102nd)
    ∷ [])

unfoldable pub es_profile : KeyMap
unfolding profile
es_profile = profile (
    (vk_oem5, key_grave)
    ∷ (vk_oem4, key_minus)
    ∷ (vk_oem6, key_equal)
    ∷ (vk_oem1, key_leftbrace)
    ∷ (vk_oemplus, key_rightbrace)
    ∷ (vk_oem3, key_semicolon)
    ∷ (vk_oem7, key_apostrophe)
    ∷ (vk_oem2, key_backslash)
    ∷ (vk_oem102, key_102nd)
    ∷ [])

unfoldable pub it_profile : KeyMap
unfolding profile
it_profile = profile (
    (vk_oem5, key_grave)
    ∷ (vk_oem4, key_minus)
    ∷ (vk_oem6, key_equal)
    ∷ (vk_oem1, key_leftbrace)
    ∷ (vk_oemplus, key_rightbrace)
    ∷ (vk_oem3, key_semicolon)
    ∷ (vk_oem7, key_apostrophe)
    ∷ (vk_oem2, key_backslash)
    ∷ (vk_oem102, key_102nd)
    ∷ [])

unfoldable pub gb_profile : KeyMap
unfolding profile
gb_profile = profile (
    (vk_oem8, key_grave)
    ∷ (vk_oem3, key_apostrophe)
    ∷ (vk_oem7, key_backslash)
    ∷ (vk_oem5, key_102nd)
    ∷ (vk_oem102, key_102nd)
    ∷ [])

unfoldable pub pt_profile : KeyMap
unfolding profile
pt_profile = profile (
    (vk_oem5, key_grave)
    ∷ (vk_oem4, key_minus)
    ∷ (vk_oem6, key_equal)
    ∷ (vk_oemplus, key_leftbrace)
    ∷ (vk_oem1, key_rightbrace)
    ∷ (vk_oem3, key_semicolon)
    ∷ (vk_oem7, key_apostrophe)
    ∷ (vk_oem2, key_backslash)
    ∷ (vk_oem102, key_102nd)
    ∷ [])

unfoldable pub nordic_profile : KeyMap
unfolding profile
nordic_profile = profile (
    (vk_oem5, key_grave)
    ∷ (vk_oemplus, key_minus)
    ∷ (vk_oem4, key_equal)
    ∷ (vk_oem6, key_leftbrace)
    ∷ (vk_oem1, key_rightbrace)
    ∷ (vk_oem3, key_semicolon)
    ∷ (vk_oem7, key_apostrophe)
    ∷ (vk_oem2, key_backslash)
    ∷ (vk_oem102, key_102nd)
    ∷ [])

unfoldable pub ch_profile : KeyMap
unfolding profile
ch_profile = profile (
    (vk_y, key_z)
    ∷ (vk_z, key_y)
    ∷ (vk_oem2, key_grave)
    ∷ (vk_oem4, key_minus)
    ∷ (vk_oem6, key_equal)
    ∷ (vk_oem1, key_leftbrace)
    ∷ (vk_oem3, key_rightbrace)
    ∷ (vk_oem7, key_semicolon)
    ∷ (vk_oem5, key_apostrophe)
    ∷ (vk_oem8, key_backslash)
    ∷ (vk_oem102, key_102nd)
    ∷ [])

unfoldable pub nl_profile : KeyMap
unfolding profile
nl_profile = profile (
    (vk_oem7, key_grave)
    ∷ (vk_oem4, key_minus)
    ∷ (vk_oem2, key_equal)
    ∷ (vk_oem6, key_leftbrace)
    ∷ (vk_oem1, key_rightbrace)
    ∷ (vk_oemplus, key_semicolon)
    ∷ (vk_oem3, key_apostrophe)
    ∷ (vk_oem5, key_backslash)
    ∷ (vk_oem102, key_102nd)
    ∷ [])
