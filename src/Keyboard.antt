-- ===== src/Keyboard.antt =====
-- c/kbd.c: the keyboard driver.
pub mod Icu
pub mod Driver
pub mod Scan
pub mod Calls
pub mod Ring
pub mod Copy
pub mod Read
