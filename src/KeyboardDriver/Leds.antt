-- ===== src/KeyboardDriver/Leds.antt =====
-- src/bin/daemon/keyboardDriver.cpp, `updateDeviceMxKeysLedsMask`: the LEDs of the keys M1 to M3,
-- which select a bank, and of MR, which records a macro.
pub mod OneBank
use glogi_k.Prelude.{
  ℕ, ◌+◌, Bool, true, false, not, List, [], ◌∷◌, Option, none, some, bit_and, bit_or, if◌then◌else◌,
}
use glogi_k.Prelude.Bits.{has}
use glogi_k.Keys.{
  key_flag, gk_key_m1, gk_key_m2, gk_key_m3, gk_key_mr, gk_led_m1, gk_led_m2, gk_led_m3, gk_led_mr,
}
use glogi_k.Types.{mkey_m0}
use glogi_k.UsbDevice.{Device, Output, device_mbank_switch}

-- The lambda `update_MxKey_mask`: the new mask and the bank that is selected.
unfoldable pub update_mxkey_mask : ℕ → ℕ → ℕ → ℕ × ℕ
update_mxkey_mask mask keyledmask smkey =
    if has mask keyledmask then (0, mkey_m0) else (keyledmask, smkey)

-- The first of the keys M1, M2, M3 that is pressed.
unfoldable pub press_mx_key : ℕ → ℕ → Option (ℕ × ℕ)
press_mx_key pressed mask =
    if has pressed (key_flag gk_key_m1)
    then some (update_mxkey_mask mask gk_led_m1 1)
    else if has pressed (key_flag gk_key_m2)
    then some (update_mxkey_mask mask gk_led_m2 2)
    else if has pressed (key_flag gk_key_m3)
    then some (update_mxkey_mask mask gk_led_m3 3)
    else none

-- mask &= ~MR on a uint8_t
abbrev pub clear_mr : ℕ → ℕ
clear_mr mask = bit_and mask 247

-- The part of the function behind the signal.
unfoldable pub press_mr_key : Bool → Bool → Bool → ℕ → Bool → ℕ × Bool
press_mr_key pressed mr_on disable_mr mask updated =
    if pressed
    then ((if mr_on then clear_mr mask else bit_or mask gk_led_mr), true)
    else if disable_mr
    then (clear_mr mask, true)
    else (mask, updated)

-- The new mask, whether it was updated, and the signal.
unfoldable pub update_leds : Bool → ℕ → ℕ → ℕ × Bool × List Output
unfolding press_mx_key update_mxkey_mask press_mr_key
update_leds disable_mr pressed mask =
    let mr_on = has mask gk_led_mr in
    let mr = has pressed (key_flag gk_key_mr) in
    elim (press_mx_key pressed mask) [
      | none ↦
          let (mask', updated) = press_mr_key mr mr_on disable_mr mask false in (mask', updated, [])
      | some (mask₁, bank) ↦
          let (mask', updated) = press_mr_key mr mr_on disable_mr mask₁ true in
          (mask', updated, device_mbank_switch bank ∷ [])
    ]

unfoldable pub update_device_mx_keys_leds_mask : Bool → Device → Device × Bool × List Output
unfolding update_leds
update_device_mx_keys_leds_mask disable_mr device =
    let (mask, updated, out) =
      update_leds disable_mr device.pressed_rkeys_mask device.mx_keys_leds_mask in
    (record device { mx_keys_leds_mask = mask }, updated, out)
