-- ===== src/KeyboardDriver/Listen/Run.antt =====
-- A whole run of the listening thread.
use glogi_k.Prelude.{List, [], ◌∷◌, ◌++◌, some, ◌≡◌, refl, All-append}
use glogi_k.UsbDevice.{Device, Output}
use glogi_k.KeyboardDriver.Listen.{
  Listener, Input, transferred, reset_device, configure, stop_daemon, reset_device_state,
  set_device_active_configuration, step, run,
}
use glogi_k.KeyboardDriver.Listen.Invariant.{Storable, Sound}
use glogi_k.KeyboardDriver.Listen.Leave.{GoesOn, goes_on}
use glogi_k.KeyboardDriver.Listen.Rounds.{transfer_step-GoesOn}
use glogi_k.KeyboardDriver.Listen.Asked.{
  Harmless, reset_device_state-Harmless, set_device_active_configuration-Harmless,
}

asked-GoesOn :
    (l : Listener) (f : Device → Device × List Output)
    → Harmless f
    → Sound l
    → GoesOn (some (record l { device = (f l.device).0; sent = l.sent ++ (f l.device).1 }))
unfolding Harmless
asked-GoesOn l f hf h =
    let (fits, storable) = hf l.mode l.device h.fits in
    goes_on _ (record { fits = fits; storable = All-append Storable l.sent _ h.storable storable })

step-GoesOn : (l : Listener) (i : Input) → Sound l → GoesOn (step l i)
unfolding step
step-GoesOn l (transferred t ms) h = transfer_step-GoesOn l.mode l t ms refl h.fits h.storable
step-GoesOn l reset_device h = asked-GoesOn l reset_device_state reset_device_state-Harmless h
step-GoesOn l (configure r g b mask) h =
    asked-GoesOn l (set_device_active_configuration r g b mask)
      (set_device_active_configuration-Harmless r g b mask) h
step-GoesOn l stop_daemon h = goes_on _ (record { fits = h.fits; storable = h.storable })

-- Whatever the USB transfers, and whatever other threads ask between them, the listening thread
-- never stops on an exception. From a sound state it reaches a sound one: at most one bank LED is
-- on, outside the record mode MR is off and no macro is under record, in it the macro keeps the
-- size limits, and every signal sent can be stored by a client: a recorded macro has at least one
-- event and fewer than MACRO_T_MAX_SIZE, and G-keys and banks are numbers of their enums.
pub run-Sound :
    (l : Listener) (is : List Input) → Sound l → (l' : Listener) × (run l is ≡ some l') × Sound l'
unfolding run GoesOn
run-Sound l [] h = (l, refl, h)
run-Sound l (i ∷ is) h =
    let (l₁, e, h₁) = step-GoesOn l i h in
    let (l₂, e₂, h₂) = run-Sound l₁ is h₁ in (l₂, rw (e, run) e₂, h₂)
