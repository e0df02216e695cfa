-- ===== src/KeyboardDriver/Listen/Asked.antt =====
-- What other threads do to the device keeps what the invariant says in every mode.
use glogi_k.Prelude.{ℕ, List, refl, if◌then◌else◌, All, All-append, Bool-cases, inl, inr}
use glogi_k.Prelude.Bits.{has}
use glogi_k.Keys.{gk_macros_keys, gk_lcd_screen, gk_backlight_color}
use glogi_k.UsbDevice.{Device, Output}
use glogi_k.LogitechG510.{set_device_mx_keys_leds, set_device_backlight_color}
use glogi_k.KeyboardDriver.Listen.{
  Mode, listening, recording, stopped, reset_device_state, set_device_active_configuration,
  when_capable, reset_mx_keys, exit_record_mode, unchanged, set_device_lcd_plugins_mask,
}
use glogi_k.KeyboardDriver.Listen.Total.{Kept}
use glogi_k.KeyboardDriver.Listen.Invariant.{Storable, FitsMode, Idle-Kept, Recording-Kept}

-- What other threads may do to a device in any mode.
unfoldable pub Harmless : (Device → Device × List Output) → Type 0
Harmless f =
    (mode : Mode) (d : Device) → FitsMode mode d → FitsMode mode (f d).0 × All Storable (f d).1

FitsMode-Kept : (mode : Mode) (d d' : Device) → Kept d d' → FitsMode mode d → FitsMode mode d'
FitsMode-Kept listening d d' k h = Idle-Kept d d' k h
FitsMode-Kept stopped d d' k h = Idle-Kept d d' k h
FitsMode-Kept recording d d' k h = Recording-Kept d d' k h

set_device_lcd_plugins_mask-Harmless : (mask : ℕ) → Harmless (set_device_lcd_plugins_mask mask)
unfolding Harmless set_device_lcd_plugins_mask
set_device_lcd_plugins_mask-Harmless mask mode d h =
    (FitsMode-Kept mode d _ (record { leds = refl; macro = refl }) h, tt)

set_device_backlight_color-Harmless : (r g b : ℕ) → Harmless (set_device_backlight_color r g b)
unfolding Harmless set_device_backlight_color
set_device_backlight_color-Harmless r g b mode d h =
    (FitsMode-Kept mode d _ (record { leds = refl; macro = refl }) h, (tt, tt))

exit-Harmless : Harmless exit_record_mode
unfolding Harmless exit_record_mode
exit-Harmless mode d h = (FitsMode-Kept mode d _ (record { leds = refl; macro = refl }) h, tt)

reset_mx_keys-Harmless : Harmless reset_mx_keys
unfolding Harmless reset_mx_keys set_device_mx_keys_leds
reset_mx_keys-Harmless listening d h =
    (record { one_bank = inl refl; mr_off = refl; no_macro = h.no_macro }, (tt, tt))
reset_mx_keys-Harmless stopped d h =
    (record { one_bank = inl refl; mr_off = refl; no_macro = h.no_macro }, (tt, tt))
reset_mx_keys-Harmless recording d h =
    (record { lit = record { one_bank = inl refl; mr_on = inl refl }; limits = h.limits }, (tt, tt))

when_capable-Harmless :
    (device : Device) (capability : ℕ) (f g : Device → Device × List Output)
    → Harmless f
    → Harmless g
    → Harmless (λ d. when_capable device capability f (g d))
unfolding Harmless when_capable
when_capable-Harmless device capability f g hf hg mode d h =
    let before = hg mode d h in
    let after = hf mode (g d).0 before.0 in
    elim (Bool-cases (has device.capabilities capability)) [
      | inl e ↦
          rw (e, if◌then◌else◌)
            (after.0, All-append Storable (g d).1 (f (g d).0).1 before.1 after.1)
      | inr e ↦ rw (e, if◌then◌else◌) before
    ]

nothing-Harmless : Harmless unchanged
unfolding Harmless unchanged
nothing-Harmless mode d h = (h, tt)

pub reset_device_state-Harmless : Harmless reset_device_state
unfolding reset_device_state Harmless
reset_device_state-Harmless mode d h =
    when_capable-Harmless d gk_lcd_screen _ _ (set_device_lcd_plugins_mask-Harmless 0)
      (when_capable-Harmless d gk_backlight_color _ _
        (set_device_backlight_color-Harmless 255 255 255)
        (when_capable-Harmless d gk_macros_keys reset_mx_keys unchanged reset_mx_keys-Harmless
          nothing-Harmless))
      mode d h

pub set_device_active_configuration-Harmless :
    (r g b mask : ℕ) → Harmless (set_device_active_configuration r g b mask)
unfolding set_device_active_configuration Harmless
set_device_active_configuration-Harmless r g b mask mode d h =
    when_capable-Harmless d gk_lcd_screen _ _ (set_device_lcd_plugins_mask-Harmless mask)
      (when_capable-Harmless d gk_backlight_color _ _ (set_device_backlight_color-Harmless r g b) (
        when_capable-Harmless d gk_macros_keys exit_record_mode unchanged exit-Harmless
          nothing-Harmless))
      mode d h
