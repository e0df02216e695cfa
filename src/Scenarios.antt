-- ===== src/Scenarios.antt =====
-- Concrete keyboards, packets, macros and services, for the examples of the children.
pub mod Keyboard
pub mod Desktop
pub mod Devices
pub mod Usb
pub mod Notify
pub mod Clients
pub mod LcdScreens
pub mod Followers
pub mod Whole
use glogi_k.Prelude.{ℕ, Bool, true, false, List, [], ◌∷◌, replicate}
use glogi_k.Types.{KeyEvent, Macro, event_key_press, event_key_release}
use glogi_k.UsbDevice.{Device, Output}
use glogi_k.LogitechG510.{known_device}
use glogi_k.KeyboardDriver.Listen.{
  Listener, listening, Input, Transfer, received, transferred, stop_daemon,
}
use glogi_k.Service.{Service}
use glogi_k.Service.Initial.{initial_banks}

abbrev pub press : ℕ → KeyEvent
press code = record { code = code; event = event_key_press; interval = 5 }

abbrev pub release : ℕ → KeyEvent
release code = record { code = code; event = event_key_release; interval = 5 }

-- A device that was just plugged in.
abbrev pub keyboard : Device
keyboard = record {
  id = known_device;
  media_key = "";
  lcd_key = "";
  new_macro = [];
  pressed_rkeys_mask = 0;
  lcd_plugins_mask1 = 0;
  mx_keys_leds_mask = 0;
  exit_macro_record_mode = true;
  threads_status = true;
  last_keys_interrupt_transfer_length = 0;
  rgb = (255, 255, 255);
  fatal_errors = 0;
  pressed_keys = replicate 16 0;
  previous_pressed_keys = replicate 16 0;
  gkey_id = 0;
}

-- A buffer with these bytes at its head.
abbrev pub buffer5 : ℕ → ℕ → ℕ → List ℕ
buffer5 b1 b2 b3 = 3 ∷ b1 ∷ b2 ∷ b3 ∷ replicate 12 0

abbrev pub buffer8 : ℕ → ℕ → List ℕ
buffer8 modifiers key = 1 ∷ modifiers ∷ key ∷ replicate 13 0

-- The device after a packet.
abbrev pub with_packet : ℕ → List ℕ → Device → Device
with_packet length buffer d = record d {
  pressed_keys = buffer;
  last_keys_interrupt_transfer_length = length;
}

abbrev pub listener : Listener
listener = record { device = keyboard; mode = listening; running = true; sent = [] }

-- MR, then the key with the HID number 4 down and up, then G3: a macro is recorded on G3.
abbrev pub record_g3 : List Input
record_g3 =
    transferred (received 5 (buffer5 0 0 128)) 0
    ∷ transferred (received 8 (buffer8 0 4)) 30
    ∷ transferred (received 8 (buffer8 0 0)) 40
    ∷ transferred (received 5 (buffer5 4 0 0)) 50
    ∷ stop_daemon
    ∷ []

-- A client with the device 7 started.
abbrev pub service : Service
service = record {
  register_status = true;
  session_is_active = true;
  started_devices = (7, initial_banks) ∷ [];
}
