-- ===== src/LogitechG510.antt =====
-- src/bin/daemon/logitechG510.cpp and .hpp: the G510 driver's reading of the USB packets.
pub mod Decode
use Prim.Native.String.{String}
use glogi_k.Prelude.{
  ℕ, Bool, true, false, List, [], ◌∷◌, ◌++◌, Option, none, some, bit_or, ◌==◌, if◌then◌else◌,
  get_or, ◌+◌,
}
use glogi_k.Prelude.Bits.{has}
use glogi_k.Keys.{
  gk_key_g1, gk_key_g2, gk_key_g3, gk_key_g4, gk_key_g5, gk_key_g6, gk_key_g7, gk_key_g8, gk_key_g9,
  gk_key_g10, gk_key_g11, gk_key_g12, gk_key_g13, gk_key_g14, gk_key_g15, gk_key_g16, gk_key_g17,
  gk_key_g18, gk_key_light, gk_key_m1, gk_key_m2, gk_key_m3, gk_key_mr, gk_key_l1, gk_key_l2,
  gk_key_l3, gk_key_l4, gk_key_l5, gk_key_mute_headset, gk_key_mute_micro, gk_key_audio_next,
  gk_key_audio_prev, gk_key_audio_stop, gk_key_audio_play, gk_key_audio_mute,
  gk_key_audio_raise_volume, gk_key_audio_lower_volume, key_flag, get_key_name, get_mkey_id,
  get_gkey_id, gk_led_m1, gk_led_m2, gk_led_m3, gk_led_mr,
}
use glogi_k.Keys.{Key}
use glogi_k.UsbDevice.{
  DeviceId, Device, Output, feature_report, KeyStatus, key_processed, key_skipped,
}

pub record RKey : Type 0 where
  pub key : Key
  pub index : ℕ
  pub mask : ℕ

pub record MKeyLed : Type 0 where
  pub led : ℕ
  pub mask : ℕ

abbrev pub keys5_bytes_map : List RKey
keys5_bytes_map =
    record { key = gk_key_light; index = 3; mask = 8 }
    ∷ record { key = gk_key_mr; index = 3; mask = 128 }
    ∷ record { key = gk_key_mute_headset; index = 4; mask = 32 }
    ∷ record { key = gk_key_mute_micro; index = 4; mask = 64 }
    ∷ []

abbrev pub mkeys5_bytes_map : List RKey
mkeys5_bytes_map =
    record { key = gk_key_m1; index = 3; mask = 16 }
    ∷ record { key = gk_key_m2; index = 3; mask = 32 }
    ∷ record { key = gk_key_m3; index = 3; mask = 64 }
    ∷ []

abbrev pub gkeys5_bytes_map : List RKey
gkeys5_bytes_map =
    record { key = gk_key_g1; index = 1; mask = 1 }
    ∷ record { key = gk_key_g2; index = 1; mask = 2 }
    ∷ record { key = gk_key_g3; index = 1; mask = 4 }
    ∷ record { key = gk_key_g4; index = 1; mask = 8 }
    ∷ record { key = gk_key_g5; index = 1; mask = 16 }
    ∷ record { key = gk_key_g6; index = 1; mask = 32 }
    ∷ record { key = gk_key_g7; index = 1; mask = 64 }
    ∷ record { key = gk_key_g8; index = 1; mask = 128 }
    ∷ record { key = gk_key_g9; index = 2; mask = 1 }
    ∷ record { key = gk_key_g10; index = 2; mask = 2 }
    ∷ record { key = gk_key_g11; index = 2; mask = 4 }
    ∷ record { key = gk_key_g12; index = 2; mask = 8 }
    ∷ record { key = gk_key_g13; index = 2; mask = 16 }
    ∷ record { key = gk_key_g14; index = 2; mask = 32 }
    ∷ record { key = gk_key_g15; index = 2; mask = 64 }
    ∷ record { key = gk_key_g16; index = 2; mask = 128 }
    ∷ record { key = gk_key_g17; index = 3; mask = 1 }
    ∷ record { key = gk_key_g18; index = 3; mask = 2 }
    ∷ []

abbrev pub lcd_keys5_bytes_map : List RKey
lcd_keys5_bytes_map =
    record { key = gk_key_l1; index = 4; mask = 1 }
    ∷ record { key = gk_key_l2; index = 4; mask = 2 }
    ∷ record { key = gk_key_l3; index = 4; mask = 4 }
    ∷ record { key = gk_key_l4; index = 4; mask = 8 }
    ∷ record { key = gk_key_l5; index = 4; mask = 16 }
    ∷ []

abbrev pub media_keys2_bytes_map : List RKey
media_keys2_bytes_map =
    record { key = gk_key_audio_next; index = 1; mask = 1 }
    ∷ record { key = gk_key_audio_prev; index = 1; mask = 2 }
    ∷ record { key = gk_key_audio_stop; index = 1; mask = 4 }
    ∷ record { key = gk_key_audio_play; index = 1; mask = 8 }
    ∷ record { key = gk_key_audio_mute; index = 1; mask = 16 }
    ∷ record { key = gk_key_audio_raise_volume; index = 1; mask = 32 }
    ∷ record { key = gk_key_audio_lower_volume; index = 1; mask = 64 }
    ∷ []

abbrev pub leds_mask : List MKeyLed
leds_mask =
    record { led = gk_led_m1; mask = 128 }
    ∷ record { led = gk_led_m2; mask = 64 }
    ∷ record { led = gk_led_m3; mask = 32 }
    ∷ record { led = gk_led_mr; mask = 16 }
    ∷ []

-- The constants that both entries of knownDevices give; the capabilities are the four bits or-ed.
abbrev pub known_device : DeviceId
known_device = record {
  capabilities = 15;
  keys_interrupt_buffer_max_length = 8;
  gkeys_transfer_length = 5;
  media_keys_transfer_length = 2;
  lcd_keys_transfer_length = 5;
}

-- device._pressedKeys[i], in a buffer of KEYS_BUFFER_LENGTH bytes
abbrev pub byte : List ℕ → ℕ → ℕ
byte buffer i = get_or buffer i 0

-- The loop that all tables share.
pub set_pressed : List RKey → List ℕ → ℕ → ℕ
set_pressed [] buffer mask = mask
set_pressed (r ∷ rs) buffer mask =
    set_pressed rs buffer
      (if has (byte buffer r.index) r.mask then bit_or mask (key_flag r.key) else mask)

unfoldable pub mkeys_id_array : List RKey → List ℕ
mkeys_id_array [] = []
mkeys_id_array (r ∷ rs) = elim (get_mkey_id r.key) [
  | none ↦ mkeys_id_array rs
  | some id ↦ id ∷ mkeys_id_array rs
]

unfoldable pub get_mkeys_id_array : List ℕ
unfolding mkeys_id_array
get_mkeys_id_array = mkeys_id_array mkeys5_bytes_map

unfoldable pub gkeys_id_array : List RKey → List ℕ
gkeys_id_array [] = []
gkeys_id_array (r ∷ rs) = elim (get_gkey_id r.key) [
  | none ↦ gkeys_id_array rs
  | some id ↦ id ∷ gkeys_id_array rs
]

unfoldable pub get_gkeys_id_array : List ℕ
unfolding gkeys_id_array
get_gkeys_id_array = gkeys_id_array gkeys5_bytes_map

-- The first key of a table whose flag is in the mask.
unfoldable pub first_pressed : List RKey → ℕ → Option Key
first_pressed [] mask = none
first_pressed (r ∷ rs) mask =
    if has mask (key_flag r.key) then some r.key else first_pressed rs mask

-- `getGKeyID` throws on a key with no G-key identifier: the outer `none`.
unfoldable pub gkey_result : Option Key → Device → Option (Bool × Device)
gkey_result none device = some (false, device)
gkey_result (some key) device = elim (get_gkey_id key) [
  | none ↦ none
  | some id ↦ some (true, record device { gkey_id = id })
]

unfoldable pub check_gkey : Device → Option (Bool × Device)
check_gkey device = gkey_result (first_pressed gkeys5_bytes_map device.pressed_rkeys_mask) device

unfoldable pub check_media_key : Device → Bool × Device
check_media_key device = elim (first_pressed media_keys2_bytes_map device.pressed_rkeys_mask) [
  | none ↦ (false, device)
  | some key ↦ (true, record device { media_key = get_key_name key })
]

unfoldable pub check_lcd_key : Device → Bool × Device
check_lcd_key device = elim (first_pressed lcd_keys5_bytes_map device.pressed_rkeys_mask) [
  | none ↦ (false, device)
  | some key ↦ (true, record device { lcd_key = get_key_name key })
]

-- The branch for first byte 0x04 only logs.
unfoldable pub process_key_event2_bytes : Device → Device
unfolding set_pressed
process_key_event2_bytes device =
    if byte device.pressed_keys 0 == 2
    then record device {
      pressed_rkeys_mask =
          set_pressed media_keys2_bytes_map device.pressed_keys device.pressed_rkeys_mask;
    }
    else device

unfoldable pub process_key_event5_bytes : Device → Device
unfolding set_pressed
process_key_event5_bytes device =
    if byte device.pressed_keys 0 == 3
    then record device {
      pressed_rkeys_mask = set_pressed lcd_keys5_bytes_map device.pressed_keys (
          set_pressed gkeys5_bytes_map device.pressed_keys (
            set_pressed mkeys5_bytes_map device.pressed_keys
              (set_pressed keys5_bytes_map device.pressed_keys device.pressed_rkeys_mask)));
    }
    else device

-- `fillStandardKeysEvents` is the keyboard driver's, and an argument here.
unfoldable pub process_key_event8_bytes : (Device → Device) → Device → Device
process_key_event8_bytes fill_standard_keys_events device =
    if byte device.pressed_keys 0 == 1 then fill_standard_keys_events device else device

process_nonzero : Device → KeyStatus × Device
process_nonzero device =
    (if device.pressed_rkeys_mask == 0 then key_skipped else key_processed, device)

unfoldable pub process_key_event : (Device → Device) → Device → KeyStatus × Device
unfolding process_nonzero process_key_event2_bytes process_key_event5_bytes process_key_event8_bytes
process_key_event fill_standard_keys_events d =
    let device = record d { pressed_rkeys_mask = 0 } in
    let length : ℕ = device.last_keys_interrupt_transfer_length in
    if length == 2
    then (key_processed, process_key_event2_bytes device)
    else if length == 5
    then process_nonzero (process_key_event5_bytes device)
    else if length == 8
    then if has device.mx_keys_leds_mask gk_led_mr
      then (
        key_processed,
        let device' = process_key_event8_bytes fill_standard_keys_events device in
            record device' { previous_pressed_keys = device'.pressed_keys },
      )
      else (key_skipped, device)
    else (key_skipped, device)

-- data[] of the two initialization requests
unfoldable pub send_usb_device_initialization : List Output
send_usb_device_initialization =
    feature_report (1 ∷ 0 ∷ 0 ∷ 0 ∷ 0 ∷ 0 ∷ 0 ∷ 0 ∷ 0 ∷ 0 ∷ 0 ∷ 0 ∷ 0 ∷ 0 ∷ 0 ∷ 0 ∷ 0 ∷ 0 ∷ 0 ∷ [])
    ∷ feature_report (9 ∷ 2 ∷ 0 ∷ 0 ∷ 0 ∷ 0 ∷ 0 ∷ 0 ∷ [])
    ∷ []

unfoldable pub set_device_backlight_color : ℕ → ℕ → ℕ → Device → Device × List Output
set_device_backlight_color r g b device =
    (record device { rgb = (r, g, b) }, feature_report (5 ∷ r ∷ g ∷ b ∷ []) ∷ [])

pub leds_byte : List MKeyLed → ℕ → ℕ → ℕ
leds_byte [] leds mask = mask
leds_byte (l ∷ ls) leds mask =
    leds_byte ls leds (if has leds l.led then bit_or mask l.mask else mask)

unfoldable pub set_device_mx_keys_leds : Device → List Output
unfolding leds_byte
set_device_mx_keys_leds device =
    feature_report (4 ∷ leds_byte leds_mask device.mx_keys_leds_mask 0 ∷ []) ∷ []
