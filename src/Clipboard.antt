-- ===== src/Clipboard.antt =====
-- internal/clipboard/clipboard_linux.go: the clipboard that two machines share.
pub mod Utf16
pub mod Formats
pub mod Manager
pub mod Transfer
