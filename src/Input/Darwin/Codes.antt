-- ===== src/Input/Darwin/Codes.antt =====
-- internal/input/keymap_darwin.go: the virtual key codes of macOS.
use Prim.Native.Nat.{ℕ}

abbrev pub k_vk_ansi_a : ℕ
k_vk_ansi_a = 0x00

abbrev pub k_vk_ansi_s : ℕ
k_vk_ansi_s = 0x01

abbrev pub k_vk_ansi_d : ℕ
k_vk_ansi_d = 0x02

abbrev pub k_vk_ansi_f : ℕ
k_vk_ansi_f = 0x03

abbrev pub k_vk_ansi_h : ℕ
k_vk_ansi_h = 0x04

abbrev pub k_vk_ansi_g : ℕ
k_vk_ansi_g = 0x05

abbrev pub k_vk_ansi_z : ℕ
k_vk_ansi_z = 0x06

abbrev pub k_vk_ansi_x : ℕ
k_vk_ansi_x = 0x07

abbrev pub k_vk_ansi_c : ℕ
k_vk_ansi_c = 0x08

abbrev pub k_vk_ansi_v : ℕ
k_vk_ansi_v = 0x09

abbrev pub k_vk_ansi_b : ℕ
k_vk_ansi_b = 0x0B

abbrev pub k_vk_ansi_q : ℕ
k_vk_ansi_q = 0x0C

abbrev pub k_vk_ansi_w : ℕ
k_vk_ansi_w = 0x0D

abbrev pub k_vk_ansi_e : ℕ
k_vk_ansi_e = 0x0E

abbrev pub k_vk_ansi_r : ℕ
k_vk_ansi_r = 0x0F

abbrev pub k_vk_ansi_y : ℕ
k_vk_ansi_y = 0x10

abbrev pub k_vk_ansi_t : ℕ
k_vk_ansi_t = 0x11

abbrev pub k_vk_ansi_1 : ℕ
k_vk_ansi_1 = 0x12

abbrev pub k_vk_ansi_2 : ℕ
k_vk_ansi_2 = 0x13

abbrev pub k_vk_ansi_3 : ℕ
k_vk_ansi_3 = 0x14

abbrev pub k_vk_ansi_4 : ℕ
k_vk_ansi_4 = 0x15

abbrev pub k_vk_ansi_6 : ℕ
k_vk_ansi_6 = 0x16

abbrev pub k_vk_ansi_5 : ℕ
k_vk_ansi_5 = 0x17

abbrev pub k_vk_ansi_equal : ℕ
k_vk_ansi_equal = 0x18

abbrev pub k_vk_ansi_9 : ℕ
k_vk_ansi_9 = 0x19

abbrev pub k_vk_ansi_7 : ℕ
k_vk_ansi_7 = 0x1A

abbrev pub k_vk_ansi_minus : ℕ
k_vk_ansi_minus = 0x1B

abbrev pub k_vk_ansi_8 : ℕ
k_vk_ansi_8 = 0x1C

abbrev pub k_vk_ansi_0 : ℕ
k_vk_ansi_0 = 0x1D

abbrev pub k_vk_ansi_rbracket : ℕ
k_vk_ansi_rbracket = 0x1E

abbrev pub k_vk_ansi_o : ℕ
k_vk_ansi_o = 0x1F

abbrev pub k_vk_ansi_u : ℕ
k_vk_ansi_u = 0x20

abbrev pub k_vk_ansi_lbracket : ℕ
k_vk_ansi_lbracket = 0x21

abbrev pub k_vk_ansi_i : ℕ
k_vk_ansi_i = 0x22

abbrev pub k_vk_ansi_p : ℕ
k_vk_ansi_p = 0x23

abbrev pub k_vk_return : ℕ
k_vk_return = 0x24

abbrev pub k_vk_ansi_l : ℕ
k_vk_ansi_l = 0x25

abbrev pub k_vk_ansi_j : ℕ
k_vk_ansi_j = 0x26

abbrev pub k_vk_ansi_quote : ℕ
k_vk_ansi_quote = 0x27

abbrev pub k_vk_ansi_k : ℕ
k_vk_ansi_k = 0x28

abbrev pub k_vk_ansi_semicolon : ℕ
k_vk_ansi_semicolon = 0x29

abbrev pub k_vk_ansi_backslash : ℕ
k_vk_ansi_backslash = 0x2A

abbrev pub k_vk_ansi_comma : ℕ
k_vk_ansi_comma = 0x2B

abbrev pub k_vk_ansi_slash : ℕ
k_vk_ansi_slash = 0x2C

abbrev pub k_vk_ansi_n : ℕ
k_vk_ansi_n = 0x2D

abbrev pub k_vk_ansi_m : ℕ
k_vk_ansi_m = 0x2E

abbrev pub k_vk_ansi_period : ℕ
k_vk_ansi_period = 0x2F

abbrev pub k_vk_tab : ℕ
k_vk_tab = 0x30

abbrev pub k_vk_space : ℕ
k_vk_space = 0x31

abbrev pub k_vk_ansi_grave : ℕ
k_vk_ansi_grave = 0x32

abbrev pub k_vk_delete : ℕ
k_vk_delete = 0x33

abbrev pub k_vk_escape : ℕ
k_vk_escape = 0x35

abbrev pub k_vk_command : ℕ
k_vk_command = 0x37

abbrev pub k_vk_shift : ℕ
k_vk_shift = 0x38

abbrev pub k_vk_caps_lock : ℕ
k_vk_caps_lock = 0x39

abbrev pub k_vk_option : ℕ
k_vk_option = 0x3A

abbrev pub k_vk_control : ℕ
k_vk_control = 0x3B

abbrev pub k_vk_right_shift : ℕ
k_vk_right_shift = 0x3C

abbrev pub k_vk_right_option : ℕ
k_vk_right_option = 0x3D

abbrev pub k_vk_right_control : ℕ
k_vk_right_control = 0x3E

abbrev pub k_vk_ansi_kp_decimal : ℕ
k_vk_ansi_kp_decimal = 0x41

abbrev pub k_vk_ansi_kp_multiply : ℕ
k_vk_ansi_kp_multiply = 0x43

abbrev pub k_vk_ansi_kp_plus : ℕ
k_vk_ansi_kp_plus = 0x45

abbrev pub k_vk_ansi_kp_clear : ℕ
k_vk_ansi_kp_clear = 0x47

abbrev pub k_vk_volume_up : ℕ
k_vk_volume_up = 0x48

abbrev pub k_vk_volume_down : ℕ
k_vk_volume_down = 0x49

abbrev pub k_vk_mute : ℕ
k_vk_mute = 0x4A

abbrev pub k_vk_ansi_kp_divide : ℕ
k_vk_ansi_kp_divide = 0x4B

abbrev pub k_vk_ansi_kp_enter : ℕ
k_vk_ansi_kp_enter = 0x4C

abbrev pub k_vk_ansi_kp_minus : ℕ
k_vk_ansi_kp_minus = 0x4E

abbrev pub k_vk_ansi_keypad0 : ℕ
k_vk_ansi_keypad0 = 0x52

abbrev pub k_vk_ansi_keypad1 : ℕ
k_vk_ansi_keypad1 = 0x53

abbrev pub k_vk_ansi_keypad2 : ℕ
k_vk_ansi_keypad2 = 0x54

abbrev pub k_vk_ansi_keypad3 : ℕ
k_vk_ansi_keypad3 = 0x55

abbrev pub k_vk_ansi_keypad4 : ℕ
k_vk_ansi_keypad4 = 0x56

abbrev pub k_vk_ansi_keypad5 : ℕ
k_vk_ansi_keypad5 = 0x57

abbrev pub k_vk_ansi_keypad6 : ℕ
k_vk_ansi_keypad6 = 0x58

abbrev pub k_vk_ansi_keypad7 : ℕ
k_vk_ansi_keypad7 = 0x59

abbrev pub k_vk_ansi_keypad8 : ℕ
k_vk_ansi_keypad8 = 0x5A

abbrev pub k_vk_ansi_keypad9 : ℕ
k_vk_ansi_keypad9 = 0x5B

abbrev pub k_vk_f1 : ℕ
k_vk_f1 = 0x7A

abbrev pub k_vk_f2 : ℕ
k_vk_f2 = 0x78

abbrev pub k_vk_f3 : ℕ
k_vk_f3 = 0x63

abbrev pub k_vk_f4 : ℕ
k_vk_f4 = 0x76

abbrev pub k_vk_f5 : ℕ
k_vk_f5 = 0x60

abbrev pub k_vk_f6 : ℕ
k_vk_f6 = 0x61

abbrev pub k_vk_f7 : ℕ
k_vk_f7 = 0x62

abbrev pub k_vk_f8 : ℕ
k_vk_f8 = 0x64

abbrev pub k_vk_f9 : ℕ
k_vk_f9 = 0x65

abbrev pub k_vk_f10 : ℕ
k_vk_f10 = 0x6D

abbrev pub k_vk_f11 : ℕ
k_vk_f11 = 0x67

abbrev pub k_vk_f12 : ℕ
k_vk_f12 = 0x6F

abbrev pub k_vk_help : ℕ
k_vk_help = 0x72

abbrev pub k_vk_home : ℕ
k_vk_home = 0x73

abbrev pub k_vk_page_up : ℕ
k_vk_page_up = 0x74

abbrev pub k_vk_forward_delete : ℕ
k_vk_forward_delete = 0x75

abbrev pub k_vk_end : ℕ
k_vk_end = 0x77

abbrev pub k_vk_page_down : ℕ
k_vk_page_down = 0x79

abbrev pub k_vk_left_arrow : ℕ
k_vk_left_arrow = 0x7B

abbrev pub k_vk_right_arrow : ℕ
k_vk_right_arrow = 0x7C

abbrev pub k_vk_down_arrow : ℕ
k_vk_down_arrow = 0x7D

abbrev pub k_vk_up_arrow : ℕ
k_vk_up_arrow = 0x7E
