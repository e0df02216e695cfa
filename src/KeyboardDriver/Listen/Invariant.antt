-- ===== src/KeyboardDriver/Listen/Invariant.antt =====
-- The listening thread never stops on an exception, at most one bank LED is on, nothing is recorded
-- outside the record mode, and what it broadcasts can be stored.
use glogi_k.Prelude.{
  ℕ, ◌≤◌, ◌<◌, Bool, true, false, List, [], ◌∷◌, ◌++◌, ◌≡◌, ◌⊎◌, ◌∙◌, ap, sym, subst, refl, arith,
  if◌then◌else◌, length, All, All-append,
}
use glogi_k.Prelude.Bits.{has}
use glogi_k.Keys.{gk_led_mr}
use glogi_k.Types.{mkeyid_max, macro_max_size}
use glogi_k.UsbDevice.{
  Device, Output, feature_report, device_mbank_switch, device_macro_recorded, device_macro_cleared,
  device_gkey_event, device_media_event,
}
use glogi_k.LogitechG510.{set_device_mx_keys_leds}
use glogi_k.KeyboardDriver.Leds.{update_device_mx_keys_leds_mask}
use glogi_k.KeyboardDriver.Leds.OneBank.{
  OneBank, lit_bank, mx_pressed, update_device_mx_keys_leds_mask-LedsUpdate,
}
use glogi_k.KeyboardDriver.Modifiers.Size.{WithinLimits}
use glogi_k.KeyboardDriver.Listen.{
  Transfer, Mode, listening, recording, stopped, Listener, get_pressed_keys, check_media,
  finish_round, update_leds_and_send,
}
use glogi_k.KeyboardDriver.Listen.Total.{
  IsGKey, Kept, get_pressed_keys-leds, get_pressed_keys-macro, get_pressed_keys-WithinLimits,
}

-- What a client can store: a recorded macro has at least one event and fewer than MACRO_T_MAX_SIZE,
-- and the key and the bank are numbers of their enums.
abbrev pub Storable : Output → Type 0
Storable (feature_report report) = Unit
Storable (device_mbank_switch bank) = bank ≤ mkeyid_max
Storable (device_macro_recorded id macro) =
    IsGKey id × (0 < length macro) × (length macro < macro_max_size)
Storable (device_macro_cleared id) = IsGKey id
Storable (device_gkey_event id) = IsGKey id
Storable (device_media_event event) = Unit

-- Outside the record mode: MR is off, and no macro is under record.
pub record Idle (d : Device) : Type 0 where
  pub one_bank : OneBank d.mx_keys_leds_mask
  pub mr_off : has d.mx_keys_leds_mask gk_led_mr ≡ false
  pub no_macro : d.new_macro ≡ []

-- In the record mode: MR is on, unless the device was reset.
pub record Lit (d : Device) : Type 0 where
  pub one_bank : OneBank d.mx_keys_leds_mask
  pub mr_on : (d.mx_keys_leds_mask ≡ 0) ⊎ (has d.mx_keys_leds_mask gk_led_mr ≡ true)

pub record Recording (d : Device) : Type 0 where
  pub lit : Lit d
  pub limits : WithinLimits d.new_macro

abbrev pub FitsMode : Mode → Device → Type 0
FitsMode listening d = Idle d
FitsMode recording d = Recording d
FitsMode stopped d = Idle d

pub record Sound (l : Listener) : Type 0 where
  pub fits : FitsMode l.mode l.device
  pub storable : All Storable l.sent

pub Idle-Kept : (d d' : Device) → Kept d d' → Idle d → Idle d'
Idle-Kept d d' k h = record {
  one_bank = subst OneBank (sym k.leds) h.one_bank;
  mr_off = ap (λ (m : ℕ). has m gk_led_mr) k.leds ∙ h.mr_off;
  no_macro = k.macro ∙ h.no_macro;
}

Lit-leds : (d d' : Device) → d'.mx_keys_leds_mask ≡ d.mx_keys_leds_mask → Lit d → Lit d'
Lit-leds d d' e h = record {
  one_bank = subst OneBank (sym e) h.one_bank;
  mr_on = subst (λ (m : ℕ). (m ≡ 0) ⊎ (has m gk_led_mr ≡ true)) (sym e) h.mr_on;
}

pub Recording-Kept : (d d' : Device) → Kept d d' → Recording d → Recording d'
Recording-Kept d d' k h = record {
  lit = Lit-leds d d' k.leds h.lit;
  limits = subst WithinLimits (sym k.macro) h.limits;
}

pub get_pressed_keys-Idle :
    (t : Transfer) (ms : ℕ) (d : Device) → Idle d → Idle (get_pressed_keys t ms d).1
get_pressed_keys-Idle t ms d h =
    Idle-Kept d (get_pressed_keys t ms d).1
      (record {
        leds = get_pressed_keys-leds t ms d;
        macro = get_pressed_keys-macro t ms d h.mr_off;
      })
      h

pub get_pressed_keys-Recording :
    (t : Transfer) (ms : ℕ) (d : Device) → Recording d → Recording (get_pressed_keys t ms d).1
get_pressed_keys-Recording t ms d h = record {
  lit = Lit-leds d (get_pressed_keys t ms d).1 (get_pressed_keys-leds t ms d) h.lit;
  limits = get_pressed_keys-WithinLimits t ms d h.limits;
}

pub finish_round-Storable : (d : Device) → All Storable (finish_round d).1
unfolding finish_round check_media
finish_round-Storable d = ground arith

update-macro :
    (disable : Bool) (d : Device)
    → (update_device_mx_keys_leds_mask disable d).0.new_macro ≡ d.new_macro
unfolding update_device_mx_keys_leds_mask
update-macro disable d = refl

signal-Storable :
    (mask : ℕ) (pressed : Bool) (out : List Output)
    → out ≡ (if pressed then device_mbank_switch (lit_bank mask) ∷ [] else [])
    → All Storable out
signal-Storable mask true out e = subst (All Storable) (sym e) (ground arith, tt)
signal-Storable mask false out e = subst (All Storable) (sym e) tt

-- What an update of the LEDs leaves: one bank, the macro, and outputs that can be stored. With a
-- forced update out of the record mode MR is off.
pub record Updated (disable : Bool) (d : Device) (r : Device × List Output) : Type 0 where
  pub one_bank : OneBank r.0.mx_keys_leds_mask
  pub macro : r.0.new_macro ≡ d.new_macro
  pub storable : All Storable r.1
  pub mr_off :
      disable ≡ true
      → has d.mx_keys_leds_mask gk_led_mr ≡ true
      → has r.0.mx_keys_leds_mask gk_led_mr ≡ false

sent-Storable :
    (d : Device) (b : Bool) (out : List Output)
    → All Storable out
    → All Storable (if b then out ++ set_device_mx_keys_leds d else out)
unfolding set_device_mx_keys_leds
sent-Storable d true out h = All-append Storable out _ h (tt, tt)
sent-Storable d false out h = h

pub update_leds_and_send-Updated :
    (disable : Bool) (d : Device)
    → OneBank d.mx_keys_leds_mask
    → Updated disable d (update_leds_and_send disable d)
unfolding update_leds_and_send
update_leds_and_send-Updated disable d h =
    let u = update_device_mx_keys_leds_mask-LedsUpdate disable d h in
    let r = update_device_mx_keys_leds_mask disable d in
    record {
      one_bank = u.one_bank;
      macro = update-macro disable d;
      storable =
          sent-Storable r.0 r.1 r.2
            (signal-Storable r.0.mx_keys_leds_mask (mx_pressed d.pressed_rkeys_mask) r.2 u.signal);
      mr_off = λ forced on. ground (arith, u.record_mode);
    }
