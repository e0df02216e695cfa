-- ===== src/KeyboardDriver/Events.antt =====
-- src/bin/daemon/keyboardDriver.cpp, `fillStandardKeysEvents`: the key events that an 8 bytes packet
-- adds to the macro under record.
pub mod Limits
use glogi_k.Prelude.{
  ℕ, zero, suc, ◌+◌, ◌-◌, ◌%◌, Bool, true, false, not, List, [], ◌∷◌, ◌++◌, ltb, leb, ◌==◌,
  if◌then◌else◌, length, Option, none, some,
}
use glogi_k.Types.{
  KeyEvent, Macro, event_key_press, event_key_release, is_release, macro_keypress_max_size,
  macro_max_size,
}
use glogi_k.UsbDevice.{Device}
use glogi_k.LogitechG510.{byte}
use glogi_k.KeyboardDriver.Hid.{hid_code}
use glogi_k.KeyboardDriver.Modifiers.{handle_modifier_keys}

-- `getTimeLapse`: the milliseconds since the last event.
unfoldable pub get_time_lapse : ℕ → ℕ
get_time_lapse ms = ms % 1000

-- The event that two different bytes at one position stand for; none if both are keys.
unfoldable pub key_event : ℕ → ℕ → ℕ → Option KeyEvent
key_event interval previous now =
    if previous == 0
    then some (record { code = hid_code now; event = event_key_press; interval = interval })
    else if now == 0
    then some (record { code = hid_code previous; event = event_key_release; interval = interval })
    else none

-- Appending under the limit for press events, with the interval of the next event.
unfoldable pub append_key_event : KeyEvent → Macro × ℕ → Macro × ℕ
append_key_event e (macro, interval) =
    if leb macro_keypress_max_size (length macro)
    then if is_release e.event then (macro ++ e ∷ [], 1) else (macro, interval)
    else (macro ++ e ∷ [], 1)

-- One round of the loop, at one position of the buffers.
unfoldable pub key_round : ℕ → ℕ → Macro × ℕ → Macro × ℕ
key_round previous now (macro, interval) =
    if previous == now
    then (macro, interval)
    else if leb macro_max_size (length macro)
    then (macro, interval)
    else elim (key_event interval previous now) [
      | none ↦ (macro, interval)
      | some e ↦ append_key_event e (macro, interval)
    ]

-- for(i = n + 1; i >= 2; --i)
unfoldable pub key_loop : ℕ → Device → Macro × ℕ → Macro × ℕ
key_loop zero device s = s
key_loop (suc n) device s =
    key_loop n device
      (key_round (byte device.previous_pressed_keys (n + 2)) (byte device.pressed_keys (n + 2)) s)

-- The buffer length is at least 2; the source's index is unsigned, and would wrap below that.
unfoldable pub fill_standard_keys_events : ℕ → Device → Device
fill_standard_keys_events ms device =
    let interval = get_time_lapse ms in
    let (device', num, _) = handle_modifier_keys interval device in
    record device' {
      new_macro =
          (key_loop (device.keys_interrupt_buffer_max_length - 2) device'
            (device'.new_macro, if ltb 0 num then 1 else interval)).0;
    }
