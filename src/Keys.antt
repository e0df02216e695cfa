-- ===== src/Keys.antt =====
-- src/include/enums.hpp: the recognised keys and the LEDs, each one bit of a mask; and the tables of
-- src/lib/shared/glogik.cpp that name them. `std::map::at` throws on a missing key: `none`.
use Prim.Native.String.{String}
use glogi_k.Prelude.{ℕ, ◌^◌, Option, none, some}

pub data Key : Type 0 where
  gk_key_g1 gk_key_g2 gk_key_g3 gk_key_g4 gk_key_g5 gk_key_g6 gk_key_g7 gk_key_g8 gk_key_g9
        gk_key_g10 gk_key_g11 gk_key_g12 gk_key_g13 gk_key_g14 gk_key_g15 gk_key_g16 gk_key_g17
        gk_key_g18 gk_key_light gk_key_m1 gk_key_m2 gk_key_m3 gk_key_mr gk_key_l1 gk_key_l2
        gk_key_l3 gk_key_l4 gk_key_l5 gk_key_mute_headset gk_key_mute_micro gk_key_audio_next
        gk_key_audio_prev gk_key_audio_stop gk_key_audio_play gk_key_audio_mute
        gk_key_audio_raise_volume gk_key_audio_lower_volume :
      Key

-- The shift in `one << n`.
unfoldable pub key_shift : Key → ℕ
key_shift gk_key_g1 = 0
key_shift gk_key_g2 = 1
key_shift gk_key_g3 = 2
key_shift gk_key_g4 = 3
key_shift gk_key_g5 = 4
key_shift gk_key_g6 = 5
key_shift gk_key_g7 = 6
key_shift gk_key_g8 = 7
key_shift gk_key_g9 = 8
key_shift gk_key_g10 = 9
key_shift gk_key_g11 = 10
key_shift gk_key_g12 = 11
key_shift gk_key_g13 = 12
key_shift gk_key_g14 = 13
key_shift gk_key_g15 = 14
key_shift gk_key_g16 = 15
key_shift gk_key_g17 = 16
key_shift gk_key_g18 = 17
key_shift gk_key_light = 18
key_shift gk_key_m1 = 19
key_shift gk_key_m2 = 20
key_shift gk_key_m3 = 21
key_shift gk_key_mr = 22
key_shift gk_key_l1 = 23
key_shift gk_key_l2 = 24
key_shift gk_key_l3 = 25
key_shift gk_key_l4 = 26
key_shift gk_key_l5 = 27
key_shift gk_key_mute_headset = 28
key_shift gk_key_mute_micro = 29
key_shift gk_key_audio_next = 30
key_shift gk_key_audio_prev = 31
key_shift gk_key_audio_stop = 32
key_shift gk_key_audio_play = 33
key_shift gk_key_audio_mute = 34
key_shift gk_key_audio_raise_volume = 35
key_shift gk_key_audio_lower_volume = 36

-- toEnumType(key)
unfoldable pub key_flag : Key → ℕ
unfolding key_shift
key_flag k = 2 ^ key_shift k

-- keysNamesMap
unfoldable pub get_key_name : Key → String
get_key_name gk_key_g1 = "G1"
get_key_name gk_key_g2 = "G2"
get_key_name gk_key_g3 = "G3"
get_key_name gk_key_g4 = "G4"
get_key_name gk_key_g5 = "G5"
get_key_name gk_key_g6 = "G6"
get_key_name gk_key_g7 = "G7"
get_key_name gk_key_g8 = "G8"
get_key_name gk_key_g9 = "G9"
get_key_name gk_key_g10 = "G10"
get_key_name gk_key_g11 = "G11"
get_key_name gk_key_g12 = "G12"
get_key_name gk_key_g13 = "G13"
get_key_name gk_key_g14 = "G14"
get_key_name gk_key_g15 = "G15"
get_key_name gk_key_g16 = "G16"
get_key_name gk_key_g17 = "G17"
get_key_name gk_key_g18 = "G18"
get_key_name gk_key_light = ""
get_key_name gk_key_m1 = "M1"
get_key_name gk_key_m2 = "M2"
get_key_name gk_key_m3 = "M3"
get_key_name gk_key_mr = ""
get_key_name gk_key_l1 = "L1"
get_key_name gk_key_l2 = "L2"
get_key_name gk_key_l3 = "L3"
get_key_name gk_key_l4 = "L4"
get_key_name gk_key_l5 = "L5"
get_key_name gk_key_mute_headset = ""
get_key_name gk_key_mute_micro = ""
get_key_name gk_key_audio_next = "XF86AudioNext"
get_key_name gk_key_audio_prev = "XF86AudioPrev"
get_key_name gk_key_audio_stop = "XF86AudioStop"
get_key_name gk_key_audio_play = "XF86AudioPlay"
get_key_name gk_key_audio_mute = "XF86AudioMute"
get_key_name gk_key_audio_raise_volume = "XF86AudioRaiseVolume"
get_key_name gk_key_audio_lower_volume = "XF86AudioLowerVolume"

-- keys2MKeysIDMap.at(key)
unfoldable pub get_mkey_id : Key → Option ℕ
get_mkey_id gk_key_m1 = some 1
get_mkey_id gk_key_m2 = some 2
get_mkey_id gk_key_m3 = some 3
get_mkey_id _ = none

-- keys2GKeysIDMap.at(key)
unfoldable pub get_gkey_id : Key → Option ℕ
get_gkey_id gk_key_g1 = some 1
get_gkey_id gk_key_g2 = some 2
get_gkey_id gk_key_g3 = some 3
get_gkey_id gk_key_g4 = some 4
get_gkey_id gk_key_g5 = some 5
get_gkey_id gk_key_g6 = some 6
get_gkey_id gk_key_g7 = some 7
get_gkey_id gk_key_g8 = some 8
get_gkey_id gk_key_g9 = some 9
get_gkey_id gk_key_g10 = some 10
get_gkey_id gk_key_g11 = some 11
get_gkey_id gk_key_g12 = some 12
get_gkey_id gk_key_g13 = some 13
get_gkey_id gk_key_g14 = some 14
get_gkey_id gk_key_g15 = some 15
get_gkey_id gk_key_g16 = some 16
get_gkey_id gk_key_g17 = some 17
get_gkey_id gk_key_g18 = some 18
get_gkey_id _ = none

-- The bits of the LED mask.
abbrev pub gk_led_m1 : ℕ
gk_led_m1 = 1

abbrev pub gk_led_m2 : ℕ
gk_led_m2 = 2

abbrev pub gk_led_m3 : ℕ
gk_led_m3 = 4

abbrev pub gk_led_mr : ℕ
gk_led_mr = 8

-- The capabilities of a device.
abbrev pub gk_backlight_color : ℕ
gk_backlight_color = 1

abbrev pub gk_macros_keys : ℕ
gk_macros_keys = 2

abbrev pub gk_media_keys : ℕ
gk_media_keys = 4

abbrev pub gk_lcd_screen : ℕ
gk_lcd_screen = 8

-- The LCD plugins that are on by default.
abbrev pub gk_lcd_splashscreen : ℕ
gk_lcd_splashscreen = 1

abbrev pub gk_lcd_system_monitor : ℕ
gk_lcd_system_monitor = 2
