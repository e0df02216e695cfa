-- ===== src/KeyboardDriver/Leds/OneBank.antt =====
-- At most one bank LED is on, and the clients are told of that bank.
use glogi_k.Prelude.{ℕ, Bool, false, not, ◌||◌, List, [], ◌∷◌, ◌≡◌, ◌⊎◌, arith, if◌then◌else◌, ◌==◌}
use glogi_k.Prelude.Bits.{has}
use glogi_k.Keys.{key_flag, gk_key_m1, gk_key_m2, gk_key_m3, gk_key_mr, gk_led_mr}
use glogi_k.UsbDevice.{Device, Output, device_mbank_switch}
use glogi_k.KeyboardDriver.Leds.{update_leds, update_device_mx_keys_leds_mask}

-- No bank LED is on, or that of M1, of M2 or of M3 alone; MR is on or off.
abbrev pub OneBank : ℕ → Type 0
OneBank mask =
    (mask ≡ 0)
    ⊎ (mask ≡ 1)
    ⊎ (mask ≡ 2)
    ⊎ (mask ≡ 4)
    ⊎ (mask ≡ 8)
    ⊎ (mask ≡ 9)
    ⊎ (mask ≡ 10)
    ⊎ (mask ≡ 12)

-- The bank whose LED is on, 0 if there is none.
abbrev pub lit_bank : ℕ → ℕ
lit_bank mask = if has mask 1 then 1 else if has mask 2 then 2 else if has mask 4 then 3 else 0

abbrev pub mx_pressed : ℕ → Bool
mx_pressed pressed =
    has pressed (key_flag gk_key_m1)
    || (has pressed (key_flag gk_key_m2) || has pressed (key_flag gk_key_m3))

-- The bank of the first key of M1, M2, M3 that is pressed.
abbrev pub wanted_bank : ℕ → ℕ
wanted_bank pressed =
    if has pressed (key_flag gk_key_m1)
    then 1
    else if has pressed (key_flag gk_key_m2)
    then 2
    else 3

pub record LedsUpdate (disable : Bool) (pressed mask : ℕ) (r : ℕ × Bool × List Output)
    : Type 0 where
  pub one_bank : OneBank r.0
  pub bank : lit_bank r.0 ≡ (
      if mx_pressed pressed
      then if lit_bank mask == wanted_bank pressed then 0 else wanted_bank pressed
      else lit_bank mask)
  pub record_mode : has r.0 gk_led_mr ≡ (
      if has pressed (key_flag gk_key_mr)
      then not (has mask gk_led_mr)
      else if disable || mx_pressed pressed
      then false
      else has mask gk_led_mr)
  pub signal : r.2 ≡ (if mx_pressed pressed then device_mbank_switch (lit_bank r.0) ∷ [] else [])

update_leds-LedsUpdate :
    (disable : Bool) (pressed mask : ℕ)
    → OneBank mask
    → LedsUpdate disable pressed mask (update_leds disable pressed mask)
unfolding update_leds
update_leds-LedsUpdate disable pressed mask h = record {
  one_bank = ground arith;
  bank = ground arith;
  record_mode = ground arith;
  signal = ground arith;
}

-- From a mask with at most one bank LED on, an update leaves at most one on. A bank key switches to
-- its bank, or off if that bank was on, and the signal announces the bank whose LED is then on; with
-- no bank key the bank stays and no signal is sent. MR toggles the record mode, and a bank key or a
-- forced update without MR leaves it.
pub update_device_mx_keys_leds_mask-LedsUpdate :
    (disable : Bool) (d : Device)
    → OneBank d.mx_keys_leds_mask
    → let r = update_device_mx_keys_leds_mask disable d in
      LedsUpdate disable d.pressed_rkeys_mask d.mx_keys_leds_mask (r.0.mx_keys_leds_mask, r.1, r.2)
unfolding update_device_mx_keys_leds_mask
update_device_mx_keys_leds_mask-LedsUpdate disable d h =
    update_leds-LedsUpdate disable d.pressed_rkeys_mask d.mx_keys_leds_mask h
