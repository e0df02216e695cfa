-- ===== src/KeyboardDriver/Listen/Rounds.antt =====
-- The rounds of both loops go on, and keep what the invariant says.
use glogi_k.Prelude.{
  ℕ, false, ◌&&◌, List, [], ◌∷◌, ◌++◌, none, some, ◌≡◌, ◌∙◌, sym, subst, refl, ◌==◌, if◌then◌else◌,
  All, All-append, Bool-cases, inl, inr,
}
use glogi_k.Prelude.Bits.{has}
use glogi_k.Keys.{gk_macros_keys, gk_led_mr}
use glogi_k.UsbDevice.{Device, Output, device_gkey_event}
use glogi_k.LogitechG510.{check_gkey}
use glogi_k.KeyboardDriver.Modifiers.Size.{WithinLimits}
use glogi_k.KeyboardDriver.Listen.{
  Transfer, Mode, listening, recording, stopped, Listener, get_pressed_keys,
  check_device_fatal_errors, finish_round, update_leds_and_send, leave, listen_processed,
  is_processed, listen_round, record_round, transfer_step, check_device_capability,
}
use glogi_k.KeyboardDriver.Listen.Total.{check_gkey_total, Kept, check_device_fatal_errors-Kept}
use glogi_k.KeyboardDriver.Listen.Invariant.{
  Storable, Idle, Recording, FitsMode, Idle-Kept, Recording-Kept, get_pressed_keys-Idle,
  get_pressed_keys-Recording, update_leds_and_send-Updated,
}
use glogi_k.KeyboardDriver.Listen.Leave.{
  Left, finish_round-Left, leave-Sound, GoesOn, record_processed-GoesOn, no_macro-WithinLimits,
  if-GoesOn, goes_on,
}

gkey_event-GoesOn :
    (l : Listener) (d : Device) (out : List Output)
    → l.mode ≡ listening
    → Idle d
    → All Storable l.sent
    → All Storable out
    → GoesOn (elim (check_gkey d) [
      | none ↦ none
      | some (pressed, d₁) ↦
          let (d₂, more) = finish_round d₁ in
          some (record l {
            device = d₂;
            sent =
                l.sent
                ++ (out ++ ((if pressed then device_gkey_event d₁.gkey_id ∷ [] else []) ++ more));
          })
    ])
unfolding GoesOn Left
gkey_event-GoesOn l d out m h s more = elim (check_gkey_total d) [
  | inl e ↦
      let left = finish_round-Left d out h more in
      rw e (
        record l { device = (finish_round d).0; sent = l.sent ++ (out ++ (finish_round d).1) },
        refl,
        record {
          fits = subst (λ mode. FitsMode mode (finish_round d).0) (sym m) left.0;
          storable = All-append Storable l.sent _ s left.1;
        },
      )
  | inr (id, known, e) ↦
      let d₁ = record d { gkey_id = id } in
      let same : Kept d d₁ = record { leds = refl; macro = refl } in
      let event = device_gkey_event id ∷ [] in
      let left = finish_round-Left d₁ event (Idle-Kept d d₁ same h) (known, tt) in
      rw e (
        record l {
          device = (finish_round d₁).0;
          sent = l.sent ++ (out ++ (event ++ (finish_round d₁).1));
        },
        refl,
        record {
          fits = subst (λ mode. FitsMode mode (finish_round d₁).0) (sym m) left.0;
          storable = All-append Storable l.sent _ s (All-append Storable out _ more left.1);
        },
      )
]

listen_processed-GoesOn :
    (l : Listener) (d : Device)
    → l.mode ≡ listening
    → Idle d
    → All Storable l.sent
    → GoesOn (listen_processed l d)
unfolding listen_processed GoesOn Left
listen_processed-GoesOn l d m h s =
    let u = update_leds_and_send-Updated false d h.one_bank in
    let (d', out) = update_leds_and_send false d in
    if-GoesOn
      (check_device_capability d gk_macros_keys
        && d.last_keys_interrupt_transfer_length == d.gkeys_transfer_length)
      _ _
      (elim (Bool-cases (has d'.mx_keys_leds_mask gk_led_mr)) [
        | inl on ↦
            rw (on, if◌then◌else◌)
              (goes_on _ (record {
                fits = record {
                  lit = record { one_bank = u.one_bank; mr_on = inr on };
                  limits = subst WithinLimits (sym (u.macro ∙ h.no_macro)) no_macro-WithinLimits;
                };
                storable = All-append Storable l.sent out s u.storable;
              }))
        | inr off ↦
            rw (off, if◌then◌else◌)
              (gkey_event-GoesOn l d' out m
                (record { one_bank = u.one_bank; mr_off = off; no_macro = u.macro ∙ h.no_macro }) s
                u.storable)
      ])
      (let left = finish_round-Left d [] h tt in
        goes_on _ (record {
          fits = subst (λ mode. FitsMode mode (finish_round d).0) (sym m) left.0;
          storable = All-append Storable l.sent _ s left.1;
        }))

listen_round-GoesOn :
    (l : Listener) (t : Transfer) (ms : ℕ)
    → l.mode ≡ listening
    → Idle l.device
    → All Storable l.sent
    → GoesOn (listen_round l t ms)
unfolding listen_round GoesOn
listen_round-GoesOn l t ms m h s =
    let d = check_device_fatal_errors l.device in
    let idle = Idle-Kept l.device d (check_device_fatal_errors-Kept l.device) h in
    let read = get_pressed_keys-Idle t ms d idle in
    let d' = (get_pressed_keys t ms d).1 in
    if-GoesOn d.threads_status _ _
      (if-GoesOn (is_processed (get_pressed_keys t ms d).0) _ _
        (listen_processed-GoesOn l d' m read s)
        (goes_on _ (record { fits = subst (λ mode. FitsMode mode d') (sym m) read; storable = s })))
      (goes_on _ (record { fits = idle; storable = s }))

record_round-GoesOn :
    (l : Listener) (t : Transfer) (ms : ℕ)
    → l.mode ≡ recording
    → Recording l.device
    → All Storable l.sent
    → GoesOn (record_round l t ms)
unfolding record_round GoesOn leave
record_round-GoesOn l t ms m h s =
    let d = check_device_fatal_errors l.device in
    let lit = Recording-Kept l.device d (check_device_fatal_errors-Kept l.device) h in
    let read = get_pressed_keys-Recording t ms d lit in
    let d' = (get_pressed_keys t ms d).1 in
    let left = leave-Sound l d [] lit.lit s tt in
    if-GoesOn d.threads_status _ _
      (if-GoesOn (is_processed (get_pressed_keys t ms d).0) _ _
        (record_processed-GoesOn l d' m read s)
        (goes_on _ (record { fits = subst (λ mode. FitsMode mode d') (sym m) read; storable = s })))
      (listen_round-GoesOn (leave l d []) t ms refl left.fits left.storable)

pub transfer_step-GoesOn :
    (mode : Mode) (l : Listener) (t : Transfer) (ms : ℕ)
    → l.mode ≡ mode
    → FitsMode mode l.device
    → All Storable l.sent
    → GoesOn (transfer_step mode l t ms)
unfolding transfer_step GoesOn leave
transfer_step-GoesOn stopped l t ms m h s =
    goes_on l (record { fits = subst (λ mode. FitsMode mode l.device) (sym m) h; storable = s })
transfer_step-GoesOn listening l t ms m h s =
    if-GoesOn l.running _ _ (listen_round-GoesOn l t ms m h s)
      (goes_on _ (record { fits = h; storable = s }))
transfer_step-GoesOn recording l t ms m h s =
    let left = leave-Sound l l.device [] h.lit s tt in
    if-GoesOn l.running _ _
      (if-GoesOn l.device.exit_macro_record_mode _ _
        (listen_round-GoesOn (leave l l.device []) t ms refl left.fits left.storable)
        (record_round-GoesOn l t ms m h s))
      (goes_on _ (record { fits = left.fits; storable = left.storable }))
