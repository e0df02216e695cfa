-- ===== src/LcdScreenPluginsManager/Screens.antt =====
-- `getNextLCDScreenBuffer`: the next plugin that is enabled follows on the screen, a locked plugin
-- stays, and the search always ends.
use glogi_k.Prelude.{
  ℕ, ◌<◌, ◌≡◌, refl, ◌⊎◌, inl, inr, false, List, length, arith, Option, none, some,
}
use glogi_k.LcdScreenPluginsManager.{
  LcdPlugin, LcdScreenPluginsManager, Search, found, infinite_loop, out_of_fuel, find_enabled,
}
use glogi_k.LcdScreenPluginsManager.Rotation.{NextEnabled, find_enabled-NextEnabled, rounds_to_le}

-- The two ways in which the search ends.
abbrev Ended : ℕ → List LcdPlugin → ℕ → Search → Type 0
Ended mask ps i s =
    ((j : ℕ) × (s ≡ found j) × NextEnabled mask ps i (found j))
    ⊎ ((s ≡ infinite_loop) × NextEnabled mask ps i infinite_loop)

NextEnabled-Ended :
    (mask : ℕ) (ps : List LcdPlugin) (i : ℕ) (s : Search)
    → NextEnabled mask ps i s
    → Ended mask ps i s
NextEnabled-Ended mask ps i (found j) h = inl (j, refl, h)
NextEnabled-Ended mask ps i infinite_loop h = inr (refl, h)
NextEnabled-Ended mask ps i out_of_fuel h = absurd (ground (arith, h))

pub full_search :
    (mask : ℕ) (ps : List LcdPlugin) (i : ℕ)
    → i < length ps
    → Ended mask ps i (find_enabled (length ps) false mask ps i i)
full_search mask ps i l = NextEnabled-Ended mask ps i _ (
    find_enabled-NextEnabled (length ps) mask ps i i 0 l (omega (arith, l)) (omega arith)
      (l, inl (omega arith))
      (λ j b u. absurd (omega (arith, u, (rounds_to_le (length ps) i j l b).0))))

-- What follows on the screen after the plugin of `m`, and the state then.
abbrev pub Follows : ℕ → LcdScreenPluginsManager → LcdScreenPluginsManager → Option ℕ → Type 0
Follows mask m m' (some j) =
    NextEnabled mask m.plugins m.current_plugin (found j)
    × (m'.current_plugin ≡ j)
    × (m'.frame_counter ≡ 0)
Follows mask m m' none =
    NextEnabled mask m.plugins m.current_plugin infinite_loop
    × (m'.current_plugin ≡ m.current_plugin)
