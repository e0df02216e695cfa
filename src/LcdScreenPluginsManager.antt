-- ===== src/LcdScreenPluginsManager.antt =====
-- src/bin/daemon/LCDScreenPluginsManager.cpp and .hpp: which LCD plugin is on the screen.
-- What a plugin draws is not modelled: a screen is the index of the plugin whose frame is on it, or
-- `none` for the blank screen.
pub mod Rotation
pub mod Screens
pub mod Runs
pub mod Locked
use glogi_k.Prelude.{
  [], ◌∷◌, ℕ, ◌+◌, ◌%◌, ◌^◌, Bool, true, false, not, List, length, get_elem?, Option, none, some,
  ltb, leb, ◌==◌, ◌&&◌, zero, suc, if◌then◌else◌,
}
use glogi_k.Prelude.Bits.{has}

-- A loaded plugin: getPluginID() and getPluginMaxFrames().
pub record LcdPlugin : Type 0 where
  pub plugin_id : ℕ
  pub max_frames : ℕ

-- _plugins, the position of _itCurrentPlugin in it, _frameCounter (16 bits), _noPlugins and
-- _currentPluginLocked.
pub record LcdScreenPluginsManager : Type 0 where
  pub plugins : List LcdPlugin
  pub current_plugin : ℕ
  pub frame_counter : ℕ
  pub no_plugins : Bool
  pub current_plugin_locked : Bool

-- LCDPluginsMask1 & getPluginID()
abbrev pub is_enabled : ℕ → List LcdPlugin → ℕ → Bool
is_enabled mask plugins i = elim (get_elem? plugins i) [
  | none ↦ false
  | some p ↦ has mask p.plugin_id
]

abbrev pub frames_of : List LcdPlugin → ℕ → ℕ
frames_of plugins i = elim (get_elem? plugins i) [ none ↦ 0 | some p ↦ p.max_frames ]

-- _itCurrentPlugin++, back to the first plugin at the end.
abbrev pub next_index : ℕ → ℕ → ℕ
next_index n i = if (i + 1) == n then 0 else i + 1

-- How the search for a plugin ends: the last is the end of the model's fuel.
pub data Search : Type 0 where
  found : ℕ → Search
  infinite_loop : Search
  out_of_fuel : Search

-- The `while` loop: one round for each unit of fuel.
unfoldable pub find_enabled : ℕ → Bool → ℕ → List LcdPlugin → ℕ → ℕ → Search
find_enabled zero locked mask plugins first i = out_of_fuel
find_enabled (suc k) locked mask plugins first i =
    let j = if locked then i else next_index (length plugins) i in
    let later = find_enabled k locked mask plugins first j in
    if is_enabled mask plugins j then found j else if j == first then infinite_loop else later

-- What stands behind the loop: the plugin that was found, or the exception that is caught.
abbrev pub turn_to : LcdScreenPluginsManager → Search → Option (LcdScreenPluginsManager × Option ℕ)
turn_to m (found j) = some (record m { current_plugin = j; frame_counter = 0 }, some j)
turn_to m infinite_loop = some (m, none)
turn_to m out_of_fuel = none

-- The loop when the frames of the current plugin are over, with a round for each plugin.
unfoldable pub next_screen :
    ℕ → LcdScreenPluginsManager → Option (LcdScreenPluginsManager × Option ℕ)
next_screen mask m = turn_to m (
    find_enabled (length m.plugins) m.current_plugin_locked mask m.plugins m.current_plugin
      m.current_plugin)

-- _frameCounter++, and the key L2, which locks and unlocks the plugin.
abbrev pub count_frame : Bool → LcdScreenPluginsManager → LcdScreenPluginsManager
count_frame is_l2 m = record m {
  frame_counter = (m.frame_counter + 1) % 2 ^ 16;
  current_plugin_locked = if is_l2 then not m.current_plugin_locked else m.current_plugin_locked;
}

-- Whether the key is L2, and the plugins that are enabled.
unfoldable pub get_next_lcd_screen_buffer :
    Bool → ℕ → LcdScreenPluginsManager → Option (LcdScreenPluginsManager × Option ℕ)
unfolding next_screen
get_next_lcd_screen_buffer is_l2 mask m =
    let next = next_screen mask (count_frame is_l2 m) in
    if m.no_plugins
    then some (m, none)
    else if not (ltb m.current_plugin (length m.plugins))
    then some (m, none)
    else if leb (frames_of m.plugins m.current_plugin) (count_frame is_l2 m).frame_counter
    then next
    else some (count_frame is_l2 m, some m.current_plugin)

unfoldable pub unlock_plugin : LcdScreenPluginsManager → LcdScreenPluginsManager
unlock_plugin m = record m { current_plugin_locked = false }

unfoldable pub jump_to_next_plugin : LcdScreenPluginsManager → LcdScreenPluginsManager
jump_to_next_plugin m =
    if not m.no_plugins && ltb m.current_plugin (length m.plugins)
    then record m {
      current_plugin_locked = false;
      frame_counter = frames_of m.plugins m.current_plugin;
    }
    else m

-- The calls that the LCD screen thread makes.
pub data Request : Type 0 where
  next_buffer : Bool → ℕ → Request
  unlock : Request
  jump : Request

-- The requests in order, and the screens that they gave.
unfoldable pub run_all :
    List Request → LcdScreenPluginsManager → Option (LcdScreenPluginsManager × List (Option ℕ))
run_all [] m = some (m, [])
run_all (unlock ∷ rest) m = run_all rest (unlock_plugin m)
run_all (jump ∷ rest) m = run_all rest (jump_to_next_plugin m)
run_all (next_buffer is_l2 mask ∷ rest) m = elim (get_next_lcd_screen_buffer is_l2 mask m) [
  | none ↦ none
  | some (m₁, shown) ↦ elim (run_all rest m₁) [
    | none ↦ none
    | some (m₂, more) ↦ some (m₂, shown ∷ more)
  ]
]
