-- ===== src/Scenarios/LcdScreens.antt =====
-- The LCD plugins manager with the splash screen, the system monitor and the end screen.
use glogi_k.Prelude.{
  ◌+◌, ◌%◌, ◌^◌, ◌*◌, ◌/◌, ◌-◌, ◌<◌, get_or, get_elem?, set, replicate, ℕ, true, false, List, [],
  ◌∷◌, Option, some, ◌≡◌, refl, arith, inr, All,
}
use glogi_k.Prelude.Bits.{bit}
use glogi_k.PbmData.{dump_pbm_data_into_lcd_buffer, write_rows, write_bytes, write_bits, lcd_byte}
use glogi_k.PbmData.Pixels.{dump_pbm_data_into_lcd_buffer-pixel}
use glogi_k.LcdScreenPluginsManager.{
  LcdScreenPluginsManager, get_next_lcd_screen_buffer, find_enabled, Request, next_buffer, unlock,
  jump, run_all,
}
use glogi_k.LcdScreenPluginsManager.Runs.{Standing, IsLoaded, run_all-Standing}

-- The splash screen has had all its frames but one.
abbrev splash_over : LcdScreenPluginsManager
splash_over = record {
  plugins =
      record { plugin_id = 1; max_frames = 10 }
      ∷ record { plugin_id = 2; max_frames = 20 }
      ∷ record { plugin_id = 4; max_frames = 10 }
      ∷ [];
  current_plugin = 0;
  frame_counter = 9;
  no_plugins = false;
  current_plugin_locked = false;
}

abbrev requests : List Request
requests = next_buffer false 6 ∷ next_buffer true 6 ∷ unlock ∷ jump ∷ next_buffer false 4 ∷ []

-- The end screen alone is enabled.
end_screen_follows :
    get_next_lcd_screen_buffer false 4 splash_over
    ≡ some (record splash_over { current_plugin = 2; frame_counter = 0 }, some 2)
unfolding get_next_lcd_screen_buffer find_enabled
end_screen_follows = refl

run_all-Standing_example :
    (m' : LcdScreenPluginsManager) × (screens : List (Option ℕ)) × (run_all requests splash_over
      ≡ some (m', screens))
    × Standing m'
    × (m'.plugins ≡ splash_over.plugins)
    × All (IsLoaded splash_over.plugins) screens
run_all-Standing_example = run_all-Standing requests splash_over (inr (omega arith))

abbrev splash_locked : LcdScreenPluginsManager
splash_locked = record splash_over { current_plugin_locked = true }

abbrev lcd_buffer : List ℕ
lcd_buffer = replicate 992 0

abbrev pbm_frame : List ℕ
pbm_frame = set (replicate 960 0) 183 64

-- The pixel in column 25 and line 9 is on in the frame.
pixel_on : get_or (dump_pbm_data_into_lcd_buffer lcd_buffer pbm_frame) 217 0 ≡ 2
unfolding dump_pbm_data_into_lcd_buffer write_rows write_bytes write_bits lcd_byte
pixel_on = refl

dump_pbm_data_into_lcd_buffer-pixel_example :
    (v : ℕ) × (get_elem?
        (dump_pbm_data_into_lcd_buffer lcd_buffer pbm_frame)
        (32 + 160 * (9 / 8) + 25)
      ≡ some v)
    × (bit v (9 % 8) ≡ get_or pbm_frame (20 * 9 + 25 / 8) 0 / 2 ^ (7 - 25 % 8) % 2)
    × ((a : ℕ)
        → a < 32
        → get_elem? (dump_pbm_data_into_lcd_buffer lcd_buffer pbm_frame) a ≡ get_elem? lcd_buffer a)
dump_pbm_data_into_lcd_buffer-pixel_example =
    dump_pbm_data_into_lcd_buffer-pixel lcd_buffer pbm_frame 25 9 (omega arith) (omega arith)
      (omega arith)
