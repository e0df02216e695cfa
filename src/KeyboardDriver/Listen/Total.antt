-- ===== src/KeyboardDriver/Listen/Total.antt =====
-- What the functions that a round of the listening thread calls leave of a device: the G-key they
-- find, the LED mask and the macro under record.
use glogi_k.Prelude.{
  ℕ, ◌≤◌, true, false, List, [], ◌∷◌, some, ◌≡◌, ◌⊎◌, refl, arith, if◌then◌else◌, replicate, All,
  Bool-cases, inl, inr,
}
use glogi_k.Prelude.Bits.{has}
use glogi_k.Keys.{key_flag, get_gkey_id, gk_led_mr}
use glogi_k.Types.{gkeyid_max}
use glogi_k.UsbDevice.{Device}
use glogi_k.LogitechG510.{
  RKey, gkeys5_bytes_map, first_pressed, gkey_result, check_gkey, check_media_key, check_lcd_key,
  process_key_event,
}
use glogi_k.KeyboardDriver.Modifiers.{handle_modifier_keys}
use glogi_k.KeyboardDriver.Events.{fill_standard_keys_events}
use glogi_k.KeyboardDriver.Modifiers.Size.{WithinLimits}
use glogi_k.KeyboardDriver.Events.Limits.{fill_standard_keys_events-WithinLimits}
use glogi_k.KeyboardDriver.Listen.{
  Transfer, received, timeout, failed, not_requested, get_pressed_keys, keys_buffer_length,
  check_device_fatal_errors, check_media, check_lcd, finish_round,
}

-- A number of the enum `GKeysID`.
abbrev pub IsGKey : ℕ → Type 0
IsGKey id = (1 ≤ id) × (id ≤ gkeyid_max)

-- Every entry of a table of G-keys has a number.
HasNumber : RKey → Type 0
HasNumber r = (id : ℕ) × (get_gkey_id r.key ≡ some id) × IsGKey id

numbered : All HasNumber gkeys5_bytes_map
unfolding get_gkey_id HasNumber
numbered = (
  (1, refl, (omega arith, omega arith)),
  (
    (2, refl, (omega arith, omega arith)),
    (
      (3, refl, (omega arith, omega arith)),
      (
        (4, refl, (omega arith, omega arith)),
        (
          (5, refl, (omega arith, omega arith)),
          (
            (6, refl, (omega arith, omega arith)),
            (
              (7, refl, (omega arith, omega arith)),
              (
                (8, refl, (omega arith, omega arith)),
                (
                  (9, refl, (omega arith, omega arith)),
                  (
                    (10, refl, (omega arith, omega arith)),
                    (
                      (11, refl, (omega arith, omega arith)),
                      (
                        (12, refl, (omega arith, omega arith)),
                        (
                          (13, refl, (omega arith, omega arith)),
                          (
                            (14, refl, (omega arith, omega arith)),
                            (
                              (15, refl, (omega arith, omega arith)),
                              (
                                (16, refl, (omega arith, omega arith)),
                                (
                                  (17, refl, (omega arith, omega arith)),
                                  ((18, refl, (omega arith, omega arith)), tt),
                                ),
                              ),
                            ),
                          ),
                        ),
                      ),
                    ),
                  ),
                ),
              ),
            ),
          ),
        ),
      ),
    ),
  ),
)

gkey_result_total :
    (rs : List RKey) (mask : ℕ) (d : Device)
    → All HasNumber rs
    → (gkey_result (first_pressed rs mask) d ≡ some (false, d))
      ⊎ ((id : ℕ) × IsGKey id
          × (gkey_result (first_pressed rs mask) d ≡ some (true, record d { gkey_id = id })))
unfolding gkey_result first_pressed HasNumber
gkey_result_total [] mask d h = inl refl
gkey_result_total (r ∷ rs) mask d h = elim (Bool-cases (has mask (key_flag r.key))) [
  | inl e ↦
      let (id, named, known) = h.0 in
      inr (id, known, rw (e, if◌then◌else◌) (rw (named, gkey_result) refl))
  | inr e ↦ rw (e, if◌then◌else◌) (gkey_result_total rs mask d h.1)
]

-- `checkGKey` never throws: it finds no G-key, or stores the number of one.
pub check_gkey_total :
    (d : Device)
    → (check_gkey d ≡ some (false, d))
      ⊎ ((id : ℕ) × IsGKey id × (check_gkey d ≡ some (true, record d { gkey_id = id })))
unfolding check_gkey
check_gkey_total d = gkey_result_total gkeys5_bytes_map d.pressed_rkeys_mask d numbered

-- The same LED mask and macro under record.
pub record Kept (d d' : Device) : Type 0 where
  pub leds : d'.mx_keys_leds_mask ≡ d.mx_keys_leds_mask
  pub macro : d'.new_macro ≡ d.new_macro

pub check_device_fatal_errors-Kept : (d : Device) → Kept d (check_device_fatal_errors d)
unfolding check_device_fatal_errors
check_device_fatal_errors-Kept d = record { leds = ground arith; macro = ground arith }

pub finish_round-Kept : (d : Device) → Kept d (finish_round d).0
unfolding finish_round check_media check_lcd check_media_key check_lcd_key
finish_round-Kept d = record { leds = ground arith; macro = ground arith }

fill_standard_keys_events-leds :
    (ms : ℕ) (d : Device) → (fill_standard_keys_events ms d).mx_keys_leds_mask ≡ d.mx_keys_leds_mask
unfolding fill_standard_keys_events handle_modifier_keys
fill_standard_keys_events-leds ms d = ground arith

process_key_event-leds :
    (ms : ℕ) (d : Device)
    → (process_key_event (fill_standard_keys_events ms) d).1.mx_keys_leds_mask ≡ d.mx_keys_leds_mask
unfolding process_key_event
process_key_event-leds ms d =
    ground (arith, fill_standard_keys_events-leds ms (record d { pressed_rkeys_mask = 0 }))

-- A transfer never changes the LED mask.
pub get_pressed_keys-leds :
    (t : Transfer) (ms : ℕ) (d : Device)
    → (get_pressed_keys t ms d).1.mx_keys_leds_mask ≡ d.mx_keys_leds_mask
unfolding get_pressed_keys
get_pressed_keys-leds (received length buffer) ms d = ground (
  arith,
  process_key_event-leds ms
      (record d { pressed_keys = buffer; last_keys_interrupt_transfer_length = length }),
)
get_pressed_keys-leds (timeout length buffer) ms d = refl
get_pressed_keys-leds (failed length buffer) ms d = refl
get_pressed_keys-leds not_requested ms d =
    ground (
      arith,
      process_key_event-leds ms (record d { pressed_keys = replicate keys_buffer_length 0 }),
    )

-- While MR is off a transfer records nothing.
process_key_event-macro :
    (fill : Device → Device) (d : Device)
    → has d.mx_keys_leds_mask gk_led_mr ≡ false
    → (process_key_event fill d).1.new_macro ≡ d.new_macro
unfolding process_key_event
process_key_event-macro fill d h = ground arith

pub get_pressed_keys-macro :
    (t : Transfer) (ms : ℕ) (d : Device)
    → has d.mx_keys_leds_mask gk_led_mr ≡ false
    → (get_pressed_keys t ms d).1.new_macro ≡ d.new_macro
unfolding get_pressed_keys
get_pressed_keys-macro (received length buffer) ms d h = ground (
  arith,
  process_key_event-macro (fill_standard_keys_events ms)
      (record d { pressed_keys = buffer; last_keys_interrupt_transfer_length = length }) h,
)
get_pressed_keys-macro (timeout length buffer) ms d h = refl
get_pressed_keys-macro (failed length buffer) ms d h = refl
get_pressed_keys-macro not_requested ms d h = ground (
  arith,
  process_key_event-macro (fill_standard_keys_events ms)
      (record d { pressed_keys = replicate keys_buffer_length 0 }) h,
)

process_key_event-WithinLimits :
    (ms : ℕ) (d : Device)
    → WithinLimits d.new_macro
    → WithinLimits (process_key_event (fill_standard_keys_events ms) d).1.new_macro
unfolding process_key_event
process_key_event-WithinLimits ms d h =
    ground
      (arith, fill_standard_keys_events-WithinLimits ms (record d { pressed_rkeys_mask = 0 }) h)

pub get_pressed_keys-WithinLimits :
    (t : Transfer) (ms : ℕ) (d : Device)
    → WithinLimits d.new_macro
    → WithinLimits (get_pressed_keys t ms d).1.new_macro
unfolding get_pressed_keys
get_pressed_keys-WithinLimits (received length buffer) ms d h = ground (
  arith,
  process_key_event-WithinLimits ms
      (record d { pressed_keys = buffer; last_keys_interrupt_transfer_length = length }) h,
)
get_pressed_keys-WithinLimits (timeout length buffer) ms d h = h
get_pressed_keys-WithinLimits (failed length buffer) ms d h = h
get_pressed_keys-WithinLimits not_requested ms d h = ground (
  arith,
  process_key_event-WithinLimits ms (record d { pressed_keys = replicate keys_buffer_length 0 }) h,
)
