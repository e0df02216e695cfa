-- ===== src/KeyboardDriver/Modifiers.antt =====
-- src/bin/daemon/keyboardDriver.cpp, `handleModifierKeys`: byte 1 of an 8 bytes packet holds the
-- modifier keys; its difference to the byte before says which were pressed or released.
pub mod Size
pub mod Exact
use glogi_k.Prelude.{
  ℕ, ◌+◌, ◌-◌, ◌%◌, Bool, true, false, not, ◌&&◌, List, [], ◌∷◌, ◌++◌, ltb, leb, ◌==◌,
  if◌then◌else◌, length,
}
use glogi_k.Prelude.Bits.{has}
use glogi_k.Types.{
  EventValue, KeyEvent, Macro, event_key_press, event_key_release, is_release,
  macro_keypress_max_size, macro_max_size,
}
use glogi_k.UsbDevice.{Device}
use glogi_k.LogitechG510.{byte}

pub record ModifierKey : Type 0 where
  pub code : ℕ
  pub key : ℕ

-- modifierKeys, with the key codes of linux/input-event-codes.h
abbrev pub modifier_keys : List ModifierKey
modifier_keys =
    record { code = 29; key = 1 }
    ∷ record { code = 42; key = 2 }
    ∷ record { code = 56; key = 4 }
    ∷ record { code = 125; key = 8 }
    ∷ record { code = 97; key = 16 }
    ∷ record { code = 54; key = 32 }
    ∷ record { code = 100; key = 64 }
    ∷ record { code = 126; key = 128 }
    ∷ []

-- The variables of the loop.
pub record Loop : Type 0 where
  pub macro : Macro
  pub interval : ℕ
  pub diff : ℕ
  pub ret : ℕ

-- The two size limits; `size` is a uint8_t.
unfoldable pub skip_event : EventValue → ℕ → Bool
skip_event event size =
    if leb macro_max_size size
    then true
    else if leb macro_keypress_max_size size
    then not (is_release event)
    else false

unfoldable pub append_modifier : EventValue → ModifierKey → Loop → Loop
append_modifier event k s =
    if skip_event event (length s.macro % 256)
    then s
    else let interval : ℕ = if ltb 0 s.ret then 1 else s.interval in
      record s {
        macro = s.macro ++ record { code = k.code; event = event; interval = interval } ∷ [];
        interval = interval;
        ret = s.ret + 1;
      }

unfoldable pub modifier_round : EventValue → ModifierKey → Loop → Loop
modifier_round event k s =
    if has s.diff k.key then append_modifier event k (record s { diff = s.diff - k.key }) else s

-- The loop, and whether it returned before the warning that follows it.
unfoldable pub modifier_loop : EventValue → List ModifierKey → Loop → Loop × Bool
modifier_loop event [] s = (s, false)
modifier_loop event (k ∷ ks) s =
    let s' = modifier_round event k s in
    let rest = modifier_loop event ks s' in if s'.diff == 0 then (s', true) else rest

-- The device, the number of events added, and whether no warning was logged.
unfoldable pub handle_modifier_keys : ℕ → Device → Device × ℕ × Bool
handle_modifier_keys interval device =
    let before = byte device.previous_pressed_keys 1 in
    let now = byte device.pressed_keys 1 in
    let event = if ltb now before then event_key_release else event_key_press in
    let diff : ℕ = if ltb now before then before - now else now - before in
    let done =
      modifier_loop event modifier_keys
        (record { macro = device.new_macro; interval = interval; diff = diff; ret = 0 }) in
    if before == now
    then (device, 0, true)
    else (record device { new_macro = done.0.macro }, done.0.ret, done.1)
