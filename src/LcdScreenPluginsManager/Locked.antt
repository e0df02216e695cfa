-- ===== src/LcdScreenPluginsManager/Locked.antt =====
-- A locked plugin stays on the LCD screen.
use glogi_k.Prelude.{ℕ, ◌≡◌, ◌⊎◌, true, false, List, [], ◌∷◌, Option, none, some}
use glogi_k.LcdScreenPluginsManager.{LcdScreenPluginsManager, is_enabled}

-- The screen is of the current plugin, or it is blank and the mask does not enable that plugin.
abbrev IsOn : LcdScreenPluginsManager → ℕ → Option ℕ → Type 0
IsOn m mask shown =
    (shown ≡ some m.current_plugin)
    ⊎ (shown ≡ none) × (is_enabled mask m.plugins m.current_plugin ≡ false)

-- There is one screen for each mask.
abbrev pub AreOn : LcdScreenPluginsManager → List ℕ → List (Option ℕ) → Type 0
AreOn m [] [] = Unit
AreOn m [] (shown ∷ screens) = true ≡ false
AreOn m (mask ∷ masks) [] = true ≡ false
AreOn m (mask ∷ masks) (shown ∷ screens) = IsOn m mask shown × AreOn m masks screens

-- What a call leaves of a locked plugin: only the frames are counted.
abbrev Stays : LcdScreenPluginsManager → ℕ → Option (LcdScreenPluginsManager × Option ℕ) → Type 0
Stays m mask r =
    (c : ℕ) × (shown : Option ℕ) × (r ≡ some (record m { frame_counter = c }, shown))
    × IsOn m mask shown
