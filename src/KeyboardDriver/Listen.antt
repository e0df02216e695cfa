-- ===== src/KeyboardDriver/Listen.antt =====
-- src/bin/daemon/keyboardDriver.cpp, the listening thread: `listenLoop`, and `enterMacroRecordMode`
-- that it calls. The nested loop is a mode of the state, and one step is what happens from one wait
-- for a USB transfer to the next. Other threads act between two steps: they set a configuration, reset
-- the device or stop the daemon. `none` is an exception or undefined behaviour.
pub mod Total
pub mod Invariant
pub mod Leave
pub mod Rounds
pub mod Asked
pub mod Run
use glogi_k.Prelude.{
  ℕ, ◌+◌, Bool, true, false, not, ◌&&◌, ◌||◌, List, [], ◌∷◌, ◌++◌, Option, none, some, leb, ◌==◌,
  if◌then◌else◌, replicate, bit_or,
}
use glogi_k.Prelude.Bits.{has}
use glogi_k.Keys.{
  key_flag, gk_key_m1, gk_key_m2, gk_key_m3, gk_key_mr, gk_led_mr, gk_macros_keys, gk_media_keys,
  gk_lcd_screen, gk_backlight_color, gk_lcd_splashscreen, gk_lcd_system_monitor,
}
use glogi_k.Types.{Macro}
use glogi_k.Macro.{check_macro}
use glogi_k.UsbDevice.{
  Device, Output, device_macro_recorded, device_macro_cleared, device_gkey_event,
  device_media_event, KeyStatus, key_processed, key_timedout, key_skipped, key_unknown,
}
use glogi_k.LogitechG510.{
  check_gkey, check_media_key, check_lcd_key, process_key_event, set_device_mx_keys_leds,
  set_device_backlight_color,
}
use glogi_k.KeyboardDriver.Events.{fill_standard_keys_events}
use glogi_k.KeyboardDriver.Leds.{update_device_mx_keys_leds_mask}

-- The result of one interrupt transfer. libusb writes a length and the buffer of KEYS_BUFFER_LENGTH
-- bytes, also on a timeout or an error; `not_requested` is the return when USB requests are off.
pub data Transfer : Type 0 where
  received timeout failed : ℕ → List ℕ → Transfer
  not_requested : Transfer

pub data Mode : Type 0 where
  listening recording stopped : Mode

pub record Listener : Type 0 where
  pub device : Device
  pub mode : Mode
  pub running : Bool
  pub sent : List Output

pub data Input : Type 0 where
  transferred : Transfer → ℕ → Input
  configure : ℕ → ℕ → ℕ → ℕ → Input
  reset_device stop_daemon : Input

unfoldable pub check_device_capability : Device → ℕ → Bool
check_device_capability device to_check = has device.capabilities to_check

abbrev pub keys_buffer_length : ℕ
keys_buffer_length = 16

unfoldable pub perform_usb_device_keys_interrupt_transfer : Transfer → Device → Device
perform_usb_device_keys_interrupt_transfer (received length buffer) device = record device {
  pressed_keys = buffer;
  last_keys_interrupt_transfer_length = length;
}
perform_usb_device_keys_interrupt_transfer (timeout length buffer) device = record device {
  pressed_keys = buffer;
  last_keys_interrupt_transfer_length = length;
}
perform_usb_device_keys_interrupt_transfer (failed length buffer) device = record device {
  pressed_keys = buffer;
  last_keys_interrupt_transfer_length = length;
}
perform_usb_device_keys_interrupt_transfer not_requested device = device

-- The branch `case 0` of `getPressedKeys`.
unfoldable pub read_keys : ℕ → Device → KeyStatus × Device
read_keys ms device =
    if device.last_keys_interrupt_transfer_length == 0
    then (key_timedout, device)
    else process_key_event (fill_standard_keys_events ms) device

-- `ms` is the time since the last event.
unfoldable pub get_pressed_keys : Transfer → ℕ → Device → KeyStatus × Device
unfolding perform_usb_device_keys_interrupt_transfer read_keys
get_pressed_keys t ms device =
    let cleared = record device { pressed_keys = replicate keys_buffer_length 0 } in
    let d = perform_usb_device_keys_interrupt_transfer t cleared in
    elim t [
      | received length buffer ↦ read_keys ms d
      | timeout length buffer ↦ (key_timedout, d)
      | failed length buffer ↦ (key_skipped, record d { fatal_errors = d.fatal_errors + 1 })
      | not_requested ↦ read_keys ms d
    ]

-- DEVICE_LISTENING_THREAD_MAX_ERRORS is 3.
unfoldable pub check_device_fatal_errors : Device → Device
check_device_fatal_errors device =
    if leb 4 device.fatal_errors then record device { threads_status = false } else device

-- if(updateDeviceMxKeysLedsMask(...)) setDeviceMxKeysLeds(...);
unfoldable pub update_leds_and_send : Bool → Device → Device × List Output
update_leds_and_send disable_mr device =
    let (d, updated, out) = update_device_mx_keys_leds_mask disable_mr device in
    (d, if updated then out ++ set_device_mx_keys_leds d else out)

-- The rest of a round of `listenLoop`: media keys, then LCD keys.
unfoldable pub check_media : Device → Device × List Output
check_media device =
    if check_device_capability device gk_media_keys
      && device.last_keys_interrupt_transfer_length == device.media_keys_transfer_length
    then (let (pressed, d) = check_media_key device in
        (d, if pressed then device_media_event d.media_key ∷ [] else []))
    else (device, [])

unfoldable pub check_lcd : Device → Device
check_lcd device =
    if check_device_capability device gk_lcd_screen
      && device.last_keys_interrupt_transfer_length == device.lcd_keys_transfer_length
    then (check_lcd_key device).1
    else device

unfoldable pub finish_round : Device → Device × List Output
finish_round device = let (d, out) = check_media device in (check_lcd d, out)

-- Back from `enterMacroRecordMode`: its last line, then the lines behind the call.
unfoldable pub leave_macro_record_mode : Device → Device × List Output
leave_macro_record_mode device =
    let d = record device { new_macro = [] } in
    let (d₁, out₁) = if d.mx_keys_leds_mask == 0 then (d, []) else update_leds_and_send true d in
    let (d₂, out₂) = finish_round d₁ in (d₂, out₁ ++ out₂)

unfoldable pub leave : Listener → Device → List Output → Listener
leave l device out =
    let (d, more) = leave_macro_record_mode device in
    record l { device = d; mode = listening; sent = l.sent ++ (out ++ more) }

-- A round of `listenLoop` behind the transfer.
unfoldable pub listen_processed : Listener → Device → Option Listener
listen_processed l device =
    if check_device_capability device gk_macros_keys
      && device.last_keys_interrupt_transfer_length == device.gkeys_transfer_length
    then (let (d, out) = update_leds_and_send false device in
        if has d.mx_keys_leds_mask gk_led_mr
        then some (record l {
          device = record d { exit_macro_record_mode = false };
          mode = recording;
          sent = l.sent ++ out;
        })
        else elim (check_gkey d) [
          | none ↦ none
          | some (pressed, d₁) ↦
              let (d₂, more) = finish_round d₁ in
              some (record l {
                device = d₂;
                sent =
                    l.sent
                    ++ (out
                        ++ ((if pressed then device_gkey_event d₁.gkey_id ∷ [] else []) ++ more));
              })
        ])
    else let (d, out) = finish_round device in some (record l { device = d; sent = l.sent ++ out })

unfoldable pub is_processed : KeyStatus → Bool
is_processed key_processed = true
is_processed key_timedout = false
is_processed key_skipped = false
is_processed key_unknown = false

unfoldable pub listen_round : Listener → Transfer → ℕ → Option Listener
listen_round l t ms =
    let d = check_device_fatal_errors l.device in
    let (status, d') = get_pressed_keys t ms d in
    let next =
      if is_processed status then listen_processed l d' else some (record l { device = d' }) in
    if d.threads_status then next else some (record l { device = d; mode = stopped })

-- The signal for a recorded macro, sent by a G-key.
unfoldable pub macro_signal : ℕ → Macro → Output
macro_signal gkey_id [] = device_macro_cleared gkey_id
macro_signal gkey_id (k ∷ ks) = device_macro_recorded gkey_id (k ∷ ks)

-- One of M1, M2, M3, MR is down.
unfoldable pub mx_key_pressed : Device → Bool
mx_key_pressed device =
    has device.pressed_rkeys_mask (key_flag gk_key_m1)
    || (has device.pressed_rkeys_mask (key_flag gk_key_m2)
        || (has device.pressed_rkeys_mask (key_flag gk_key_m3)
            || has device.pressed_rkeys_mask (key_flag gk_key_mr)))

-- A G-key ends the record: the macro is checked and sent.
unfoldable pub send_macro : Listener → Device → Option Listener
send_macro l device = elim (check_macro device.new_macro) [
  | none ↦ none
  | some macro ↦
      let d = record device { new_macro = macro; exit_macro_record_mode = true } in
      some (leave l d (macro_signal d.gkey_id macro ∷ []))
]

-- A round of the loop of `enterMacroRecordMode` behind the transfer.
unfoldable pub record_processed : Listener → Device → Option Listener
record_processed l device =
    if mx_key_pressed device
    then some (leave l (record device { exit_macro_record_mode = true }) [])
    else elim (check_gkey device) [
      | none ↦ none
      | some (pressed, d) ↦ if pressed then send_macro l d else some (record l { device = d })
    ]

unfoldable pub record_round : Listener → Transfer → ℕ → Option Listener
record_round l t ms =
    let d = check_device_fatal_errors l.device in
    let (status, d') = get_pressed_keys t ms d in
    let next =
      if is_processed status then record_processed l d' else some (record l { device = d' }) in
    let given_up = listen_round (leave l d []) t ms in if d.threads_status then next else given_up

-- The head of each loop, and the round.
unfoldable pub transfer_step : Mode → Listener → Transfer → ℕ → Option Listener
transfer_step stopped l t ms = some l
transfer_step listening l t ms =
    let next = listen_round l t ms in if l.running then next else some (record l { mode = stopped })
transfer_step recording l t ms =
    let left = leave l l.device [] in
    let next =
      if l.device.exit_macro_record_mode then listen_round left t ms else record_round l t ms in
    if l.running then next else some (record left { mode = stopped })

-- What a function that other threads call on the device does, where the device has a capability.
unfoldable pub when_capable :
    Device → ℕ → (Device → Device × List Output) → Device × List Output → Device × List Output
when_capable device capability f (d, out) =
    if has device.capabilities capability
    then (let (d', more) = f d in (d', out ++ more))
    else (d, out)

-- Without a mask the splash screen and the system monitor are on. The plugins manager, which is told
-- too, is no part of the device's state here.
unfoldable pub set_device_lcd_plugins_mask : ℕ → Device → Device × List Output
set_device_lcd_plugins_mask mask device = (
  record device {
    lcd_plugins_mask1 =
        if mask == 0 then bit_or gk_lcd_splashscreen gk_lcd_system_monitor else mask;
  },
  [],
)

-- exit MacroRecordMode if necessary
unfoldable pub exit_record_mode : Device → Device × List Output
exit_record_mode device = (record device { exit_macro_record_mode = true }, [])

unfoldable pub unchanged : Device → Device × List Output
unchanged device = (device, [])

unfoldable pub reset_mx_keys : Device → Device × List Output
reset_mx_keys device =
    let d = record device { exit_macro_record_mode = true; mx_keys_leds_mask = 0 } in
    (d, set_device_mx_keys_leds d)

unfoldable pub reset_device_state : Device → Device × List Output
unfolding when_capable
reset_device_state device = when_capable device gk_lcd_screen (set_device_lcd_plugins_mask 0) (
    when_capable device gk_backlight_color (set_device_backlight_color 255 255 255)
      (when_capable device gk_macros_keys reset_mx_keys (unchanged device)))

unfoldable pub set_device_active_configuration : ℕ → ℕ → ℕ → ℕ → Device → Device × List Output
unfolding when_capable
set_device_active_configuration r g b lcd_plugins_mask1 device =
    when_capable device gk_lcd_screen (set_device_lcd_plugins_mask lcd_plugins_mask1) (
      when_capable device gk_backlight_color (set_device_backlight_color r g b)
        (when_capable device gk_macros_keys exit_record_mode (unchanged device)))

unfoldable pub step : Listener → Input → Option Listener
step l (transferred t ms) = transfer_step l.mode l t ms
step l reset_device =
    let (d, out) = reset_device_state l.device in
    some (record l { device = d; sent = l.sent ++ out })
step l (configure r g b lcd_plugins_mask1) =
    let (d, out) = set_device_active_configuration r g b lcd_plugins_mask1 l.device in
    some (record l { device = d; sent = l.sent ++ out })
step l stop_daemon = some (record l { running = false })

pub run : Listener → List Input → Option Listener
run l [] = some l
run l (i ∷ is) = elim (step l i) [ none ↦ none | some l' ↦ run l' is ]
