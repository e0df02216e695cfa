-- ===== src/KeyboardDriver.antt =====
-- src/bin/daemon/keyboardDriver.cpp and .hpp: the keyboard driver, above the G510's own functions.
pub mod Hid
pub mod Modifiers
pub mod Events
pub mod Leds
pub mod Listen
