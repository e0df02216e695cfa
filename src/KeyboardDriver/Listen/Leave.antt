-- ===== src/KeyboardDriver/Listen/Leave.antt =====
-- The record mode ends: what is sent can be stored, and the device is out of the record mode.
use glogi_k.Prelude.{
  ℕ, ◌<◌, Bool, true, false, List, [], ◌∷◌, ◌++◌, Option, none, some, ◌≡◌, ◌∙◌, sym, subst, refl,
  arith, ◌==◌, if◌then◌else◌, length, All, All-append, Bool-cases, inl, inr,
}
use glogi_k.Types.{Macro, macro_max_size}
use glogi_k.Macro.Size.{check_macro_total}
use glogi_k.UsbDevice.{Device, Output}
use glogi_k.LogitechG510.{check_gkey}
use glogi_k.KeyboardDriver.Modifiers.Size.{WithinLimits}
use glogi_k.KeyboardDriver.Listen.{
  recording, Listener, finish_round, update_leds_and_send, leave_macro_record_mode, leave,
  macro_signal, send_macro, record_processed, mx_key_pressed,
}
use glogi_k.KeyboardDriver.Listen.Total.{IsGKey, check_gkey_total, finish_round-Kept}
use glogi_k.KeyboardDriver.Listen.Invariant.{
  Storable, Idle, Lit, Recording, FitsMode, Sound, Idle-Kept, finish_round-Storable,
  update_leds_and_send-Updated,
}

-- A device out of the record mode, and outputs that can be stored.
unfoldable pub Left : Device × List Output → Type 0
Left r = Idle r.0 × All Storable r.1

pub finish_round-Left :
    (d : Device) (out : List Output)
    → Idle d
    → All Storable out
    → Left ((finish_round d).0, out ++ (finish_round d).1)
unfolding Left
finish_round-Left d out h s = (
  Idle-Kept d (finish_round d).0 (finish_round-Kept d) h,
  All-append Storable out (finish_round d).1 s (finish_round-Storable d),
)

mr_off-Left :
    (d : Device)
    → Lit d
    → d.new_macro ≡ []
    → Left (if d.mx_keys_leds_mask == 0 then (d, []) else update_leds_and_send true d)
unfolding Left
mr_off-Left d h none_left = elim (Bool-cases (d.mx_keys_leds_mask == 0)) [
  | inl e ↦
      rw (e, if◌then◌else◌)
        (record { one_bank = h.one_bank; mr_off = ground arith; no_macro = none_left }, tt)
  | inr e ↦
      let u = update_leds_and_send-Updated true d h.one_bank in
      rw (e, if◌then◌else◌)
        (
          record {
            one_bank = u.one_bank;
            mr_off = u.mr_off refl (ground (arith, h.mr_on));
            no_macro = u.macro ∙ none_left;
          },
          u.storable,
        )
]

leave_macro_record_mode-Left : (d : Device) → Lit d → Left (leave_macro_record_mode d)
unfolding leave_macro_record_mode Left
leave_macro_record_mode-Left d h =
    let d' = record d { new_macro = [] } in
    let r = if d.mx_keys_leds_mask == 0 then (d', []) else update_leds_and_send true d' in
    let left = mr_off-Left d' (record { one_bank = h.one_bank; mr_on = h.mr_on }) refl in
    finish_round-Left r.0 r.1 left.0 left.1

pub leave-Sound :
    (l : Listener) (d : Device) (out : List Output)
    → Lit d
    → All Storable l.sent
    → All Storable out
    → Sound (leave l d out)
unfolding leave Left
leave-Sound l d out h s more =
    let left = leave_macro_record_mode-Left d h in
    record {
      fits = left.0;
      storable = All-append Storable l.sent _ s (All-append Storable out _ more left.1);
    }

-- A step that goes on, from a sound state to a sound one.
unfoldable pub GoesOn : Option Listener → Type 0
GoesOn o = (l : Listener) × (o ≡ some l) × Sound l

macro_signal-Storable :
    (id : ℕ) (m : Macro) → IsGKey id → length m < macro_max_size → Storable (macro_signal id m)
unfolding macro_signal
macro_signal-Storable id [] known short = known
macro_signal-Storable id (k ∷ ks) known short = (known, omega arith, short)

send_macro-GoesOn :
    (l : Listener) (d : Device)
    → Lit d
    → IsGKey d.gkey_id
    → All Storable l.sent
    → GoesOn (send_macro l d)
unfolding send_macro GoesOn
send_macro-GoesOn l d h known s =
    let (m, e, short) = check_macro_total d.new_macro in
    let d' = record d { new_macro = m; exit_macro_record_mode = true } in
    let out = macro_signal d.gkey_id m ∷ [] in
    (
      leave l d' out,
      rw (e, send_macro) refl,
      leave-Sound l d' out (record { one_bank = h.one_bank; mr_on = h.mr_on }) s
          (macro_signal-Storable d.gkey_id m known short, tt),
    )

record_gkey-GoesOn :
    (l : Listener) (d : Device)
    → l.mode ≡ recording
    → Recording d
    → All Storable l.sent
    → GoesOn (elim (check_gkey d) [
      | none ↦ none
      | some (pressed, d') ↦ if pressed then send_macro l d' else some (record l { device = d' })
    ])
unfolding GoesOn
record_gkey-GoesOn l d m h s = elim (check_gkey_total d) [
  | inl e ↦ rw e (
    record l { device = d },
    refl,
    record { fits = subst (λ mode. FitsMode mode d) (sym m) h; storable = s },
  )
  | inr (id, known, e) ↦ rw e (
      send_macro-GoesOn l (record d { gkey_id = id })
        (record { one_bank = h.lit.one_bank; mr_on = h.lit.mr_on }) known s)
]

pub record_processed-GoesOn :
    (l : Listener) (d : Device)
    → l.mode ≡ recording
    → Recording d
    → All Storable l.sent
    → GoesOn (record_processed l d)
unfolding record_processed GoesOn
record_processed-GoesOn l d m h s = elim (Bool-cases (mx_key_pressed d)) [
  | inl e ↦
      let d' = record d { exit_macro_record_mode = true } in
      rw (e, if◌then◌else◌)
        (
          leave l d' [],
          refl,
          leave-Sound l d' [] (record { one_bank = h.lit.one_bank; mr_on = h.lit.mr_on }) s tt,
        )
  | inr e ↦ rw (e, if◌then◌else◌) (record_gkey-GoesOn l d m h s)
]

pub no_macro-WithinLimits : WithinLimits []
no_macro-WithinLimits = record { events = omega arith; presses = omega arith }

-- The two branches of a test, both computed.
pub if-GoesOn :
    (b : Bool) (x y : Option Listener) → GoesOn x → GoesOn y → GoesOn (if b then x else y)
if-GoesOn true x y hx hy = hx
if-GoesOn false x y hx hy = hy

pub goes_on : (l : Listener) → Sound l → GoesOn (some l)
unfolding GoesOn
goes_on l h = (l, refl, h)
