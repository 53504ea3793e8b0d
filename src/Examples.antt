-- ===== src/Examples.antt =====
-- Concrete packets, devices and ciphers, and what the theorems say of them.
pub mod Wire
pub mod Handling
pub mod Settings
pub mod Receiving
pub mod Greeting
pub mod Copying
pub mod Capturing
pub mod Sending
pub mod Devices
pub mod Running
pub mod Detecting
