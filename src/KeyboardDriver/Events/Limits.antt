-- ===== src/KeyboardDriver/Events/Limits.antt =====
-- A packet keeps the macro under record within its limits.
use glogi_k.Prelude.{ℕ, zero, suc, ◌+◌, ◌-◌, false, ◌≡◌, arith, leb, length, Option-cases, inl, inr}
use glogi_k.Types.{KeyEvent, Macro}
use glogi_k.UsbDevice.{Device}
use glogi_k.LogitechG510.{byte}
use glogi_k.KeyboardDriver.Modifiers.{handle_modifier_keys}
use glogi_k.KeyboardDriver.Modifiers.Size.{
  WithinLimits, WithinLimits-append, handle_modifier_keys-WithinLimits,
}
use glogi_k.KeyboardDriver.Events.{
  get_time_lapse, key_event, append_key_event, key_round, key_loop, fill_standard_keys_events,
}

append_key_event-WithinLimits :
    (e : KeyEvent) (m : Macro) (interval : ℕ)
    → WithinLimits m
    → leb 24 (length m) ≡ false
    → WithinLimits (append_key_event e (m, interval)).0
unfolding append_key_event
append_key_event-WithinLimits e m interval h room = ground (arith, WithinLimits-append m e h)

key_round-WithinLimits :
    (previous now : ℕ) (m : Macro) (interval : ℕ)
    → WithinLimits m
    → WithinLimits (key_round previous now (m, interval)).0
unfolding key_round
key_round-WithinLimits previous now m interval h =
    elim (Option-cases (key_event interval previous now)) [
      | inl p ↦ ground arith
      | inr (e, p) ↦ ground (arith, append_key_event-WithinLimits e m interval h)
    ]

key_loop-WithinLimits :
    (n : ℕ) (d : Device) (s : Macro × ℕ) → WithinLimits s.0 → WithinLimits (key_loop n d s).0
unfolding key_loop
key_loop-WithinLimits zero d s h = h
key_loop-WithinLimits (suc n) d (m, interval) h = key_loop-WithinLimits n d _ (
    key_round-WithinLimits (byte d.previous_pressed_keys (n + 2)) (byte d.pressed_keys (n + 2)) m
      interval h)

-- Whatever the packet, a macro of at most MACRO_T_MAX_SIZE events with at most
-- MACRO_T_KEYPRESS_MAX_SIZE press events stays so.
pub fill_standard_keys_events-WithinLimits :
    (ms : ℕ) (d : Device)
    → WithinLimits d.new_macro
    → WithinLimits (fill_standard_keys_events ms d).new_macro
unfolding fill_standard_keys_events
fill_standard_keys_events-WithinLimits ms d h =
    let interval = get_time_lapse ms in
    let d' = (handle_modifier_keys interval d).0 in
    key_loop-WithinLimits (d.keys_interrupt_buffer_max_length - 2) d' _
      (handle_modifier_keys-WithinLimits interval d h)
