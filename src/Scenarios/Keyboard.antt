-- ===== src/Scenarios/Keyboard.antt =====
-- The keyboard driver and the macros at concrete inputs.
use glogi_k.Prelude.{
  ◌+◌, ◌-◌, ◌^◌, ◌<◌, true, false, not, ◌&&◌, [], ◌∷◌, ◌++◌, some, ◌≡◌, refl, arith, length, inl,
  inr, replicate,
}
use glogi_k.Prelude.Bits.{has, none-Within}
use glogi_k.Keys.{key_flag, gk_key_g3}
use glogi_k.Types.{Macro, macro_max_size, event_key_press, event_key_release}
use glogi_k.UsbDevice.{Device}
use glogi_k.Macro.{fill_in_vectors, fix_macro_release_events, check_macro}
use glogi_k.Macro.Balance.{Repaired, fix_macro_release_events-Repaired}
use glogi_k.Macro.Size.{check_macro_total, check_macro-Repaired}
use glogi_k.LogitechG510.{process_key_event, check_gkey, gkeys5_bytes_map}
use glogi_k.LogitechG510.Decode.{
  held, keys_of_5_bytes, first_held, with_gkey, process_key_event-held, check_gkey-first_held,
}
use glogi_k.KeyboardDriver.Modifiers.{handle_modifier_keys, modifier_keys}
use glogi_k.KeyboardDriver.Modifiers.Size.{WithinLimits}
use glogi_k.KeyboardDriver.Modifiers.Exact.{
  timed, codes_where, handle_modifier_keys_press, handle_modifier_keys_release,
  handle_modifier_keys_swap,
}
use glogi_k.KeyboardDriver.Events.{fill_standard_keys_events}
use glogi_k.KeyboardDriver.Events.Limits.{fill_standard_keys_events-WithinLimits}
use glogi_k.KeyboardDriver.Leds.{update_device_mx_keys_leds_mask}
use glogi_k.KeyboardDriver.Leds.OneBank.{LedsUpdate, update_device_mx_keys_leds_mask-LedsUpdate}
use glogi_k.KeyboardDriver.Listen.{Listener, run}
use glogi_k.KeyboardDriver.Listen.Invariant.{Sound}
use glogi_k.KeyboardDriver.Listen.Run.{run-Sound}
use glogi_k.Scenarios.{press, release, keyboard, buffer5, buffer8, with_packet, listener, record_g3}

-- A press with no release, and a release with no press.
abbrev untidy : Macro
untidy = release 48 ∷ press 30 ∷ press 46 ∷ release 46 ∷ []

fix_macro_release_events-Repaired_example :
    (m : Macro) × (fix_macro_release_events (fill_in_vectors untidy) untidy ≡ some m)
    × Repaired untidy m
fix_macro_release_events-Repaired_example = fix_macro_release_events-Repaired untidy

-- Twenty-four presses of one key.
check_macro_total_example :
    (m : Macro) × (check_macro (replicate 24 (press 30)) ≡ some m) × (length m < macro_max_size)
check_macro_total_example = check_macro_total (replicate 24 (press 30))

check_macro-Repaired_example : (m : Macro) × (check_macro untidy ≡ some m) × Repaired untidy m
check_macro-Repaired_example = check_macro-Repaired untidy (omega arith)

abbrev g3_down : Device
g3_down = with_packet 5 (buffer5 4 0 0) keyboard

process_key_event-held_example :
    has (process_key_event (λ d. d) g3_down).1.pressed_rkeys_mask (key_flag gk_key_g3)
    ≡ held keys_of_5_bytes g3_down.pressed_keys gk_key_g3
process_key_event-held_example = process_key_event-held (λ d. d) g3_down gk_key_g3 (refl, refl)

abbrev mute_down : Device
mute_down = with_packet 2 (2 ∷ 16 ∷ replicate 14 0) keyboard

check_gkey-first_held_example :
    check_gkey (process_key_event (λ d. d) g3_down).1
    ≡ some (
        with_gkey
          (process_key_event (λ d. d) g3_down).1
          (first_held gkeys5_bytes_map g3_down.pressed_keys))
check_gkey-first_held_example = check_gkey-first_held (λ d. d) g3_down (refl, refl)

-- Left Ctrl and left Shift go down.
abbrev ctrl_shift : Device
ctrl_shift = with_packet 8 (buffer8 3 0) keyboard

no_macro-WithinLimits : WithinLimits []
no_macro-WithinLimits = record { events = omega arith; presses = omega arith }

handle_modifier_keys_press_example :
    (handle_modifier_keys 5 ctrl_shift).0.new_macro
    ≡ []
      ++ timed event_key_press 5
          (codes_where (λ flag. has 3 flag && not (has 0 flag)) modifier_keys)
handle_modifier_keys_press_example =
    handle_modifier_keys_press 5 ctrl_shift
      (record {
        before_byte = omega arith;
        now_byte = omega arith;
        differ = omega arith;
        room = omega arith;
      })
      (none-Within 3)

-- Left Ctrl goes up.
abbrev ctrl_up : Device
ctrl_up = record keyboard { previous_pressed_keys = buffer8 1 0; pressed_keys = buffer8 0 0 }

handle_modifier_keys_release_example :
    (handle_modifier_keys 5 ctrl_up).0.new_macro
    ≡ []
      ++ timed event_key_release 5
          (codes_where (λ flag. has 1 flag && not (has 0 flag)) modifier_keys)
handle_modifier_keys_release_example =
    handle_modifier_keys_release 5 ctrl_up
      (record {
        before_byte = omega arith;
        now_byte = omega arith;
        differ = omega arith;
        room = omega arith;
      })
      (none-Within 1)

-- Left Ctrl goes up and left Shift goes down.
abbrev swap : Device
swap = record keyboard { previous_pressed_keys = buffer8 1 0; pressed_keys = buffer8 2 0 }

handle_modifier_keys_swap_example :
    (has (2 ^ 1 - 2 ^ 0) (2 ^ 0) ≡ true)
    × (has (2 ^ 1 - 2 ^ 0) (2 ^ 1) ≡ false)
    × ((handle_modifier_keys 5 swap).0.new_macro
        ≡ [] ++ timed event_key_press 5 (codes_where (has (2 ^ 1 - 2 ^ 0)) modifier_keys))
handle_modifier_keys_swap_example =
    handle_modifier_keys_swap 5 0 1 swap
      (record {
        before_byte = omega arith;
        now_byte = omega arith;
        differ = omega arith;
        room = omega arith;
      })
      (omega arith) (omega arith) refl refl

fill_standard_keys_events-WithinLimits_example :
    WithinLimits (fill_standard_keys_events 5 ctrl_shift).new_macro
fill_standard_keys_events-WithinLimits_example =
    fill_standard_keys_events-WithinLimits 5 ctrl_shift no_macro-WithinLimits

-- M1 and MR are pressed while the LED of M2 is on.
abbrev m1_mr : Device
m1_mr = record keyboard { pressed_rkeys_mask = 2 ^ 19 + 2 ^ 22; mx_keys_leds_mask = 2 }

update_device_mx_keys_leds_mask-LedsUpdate_example : LedsUpdate false m1_mr.pressed_rkeys_mask 2 (
  (update_device_mx_keys_leds_mask false m1_mr).0.mx_keys_leds_mask,
  (update_device_mx_keys_leds_mask false m1_mr).1,
  (update_device_mx_keys_leds_mask false m1_mr).2,
)
update_device_mx_keys_leds_mask-LedsUpdate_example =
    update_device_mx_keys_leds_mask-LedsUpdate false m1_mr (inr (inr (inl refl)))

abbrev pub listener-Sound : Sound listener
listener-Sound = record {
  fits = record { one_bank = inl refl; mr_off = refl; no_macro = refl };
  storable = tt;
}

run-Sound_example : (l' : Listener) × (run listener record_g3 ≡ some l') × Sound l'
run-Sound_example = run-Sound listener record_g3 listener-Sound
