-- ===== src/Input.antt =====
-- internal/input: key codes, keyboard layouts and the virtual devices.
pub mod Codes
pub mod Keymap
pub mod Uinput
pub mod Darwin
