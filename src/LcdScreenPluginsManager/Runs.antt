-- ===== src/LcdScreenPluginsManager/Runs.antt =====
-- Over any requests the iterator stays on a plugin, the search always ends, and only loaded plugins
-- come on the screen.
use glogi_k.Prelude.{
  if-holds, ℕ, ◌-◌, ◌<◌, ◌≡◌, refl, ◌∙◌, ◌⊎◌, inl, inr, Bool, true, false, not, List, [], ◌∷◌,
  length, arith, ltb, leb, ◌==◌, if◌then◌else◌, Bool-cases, suc, Option, none, some, All, ap, subst,
}
use glogi_k.LcdScreenPluginsManager.{
  LcdPlugin, LcdScreenPluginsManager, Search, found, infinite_loop, find_enabled, is_enabled,
  frames_of, count_frame, turn_to, next_screen, get_next_lcd_screen_buffer, unlock_plugin,
  jump_to_next_plugin, Request, next_buffer, unlock, jump, run_all,
}
use glogi_k.LcdScreenPluginsManager.Screens.{full_search}

-- Either no plugin is loaded or the iterator stands on one.
abbrev pub Standing : LcdScreenPluginsManager → Type 0
Standing m = (m.no_plugins ≡ true) ⊎ (m.current_plugin < length m.plugins)

abbrev pub IsLoaded : List LcdPlugin → Option ℕ → Type 0
IsLoaded ps none = true ≡ true
IsLoaded ps (some i) = i < length ps

-- What a call leaves: the iterator on a plugin, the vector of plugins, and a screen of one of them.
abbrev pub Kept : LcdScreenPluginsManager → LcdScreenPluginsManager → Option ℕ → Type 0
Kept m m' shown = Standing m' × (m'.plugins ≡ m.plugins) × IsLoaded m.plugins shown

pub find_enabled_locked :
    (k mask : ℕ) (ps : List LcdPlugin) (i : ℕ)
    → find_enabled (suc k) true mask ps i i
      ≡ (if is_enabled mask ps i then found i else infinite_loop)
unfolding find_enabled
find_enabled_locked k mask ps i = elim (Bool-cases (is_enabled mask ps i)) [
  | inl t ↦ rw (t) refl
  | inr t ↦ let same : (i == i) ≡ true = ground arith in rw (t, same) refl
]

-- The search from the current plugin, locked or not, ends in the vector or in the exception.
abbrev Stops : List LcdPlugin → Search → Type 0
Stops ps s = ((j : ℕ) × (s ≡ found j) × (j < length ps)) ⊎ (s ≡ infinite_loop)

find_enabled-Stops :
    (locked : Bool) (mask : ℕ) (ps : List LcdPlugin) (i : ℕ)
    → i < length ps
    → Stops ps (find_enabled (length ps) locked mask ps i i)
find_enabled-Stops false mask ps i l = elim (full_search mask ps i l) [
  | inl (j, e, h) ↦ inl (j, e, h.0)
  | inr (e, h) ↦ inr e
]
find_enabled-Stops true mask ps i l =
    let fuel : length ps ≡ suc (length ps - 1) = omega (arith, l) in
    let e =
      ap (λ k. find_enabled k true mask ps i i) fuel
      ∙ find_enabled_locked (length ps - 1) mask ps i in
    elim (Bool-cases (is_enabled mask ps i)) [
      | inl t ↦ inl (i, simp (t) at e, l)
      | inr t ↦ inr (simp (t) at e)
    ]

-- A call that returns and keeps the manager standing.
abbrev Returns : LcdScreenPluginsManager → Option (LcdScreenPluginsManager × Option ℕ) → Type 0
Returns m r =
    (m' : LcdScreenPluginsManager) × (shown : Option ℕ) × (r ≡ some (m', shown)) × Kept m m' shown

next_screen-Kept :
    (mask : ℕ) (m : LcdScreenPluginsManager)
    → m.current_plugin < length m.plugins
    → (m' : LcdScreenPluginsManager) × (shown : Option ℕ) × (next_screen mask m ≡ some (m', shown))
      × Kept m m' shown
unfolding next_screen
next_screen-Kept mask m l =
    elim (find_enabled-Stops m.current_plugin_locked mask m.plugins m.current_plugin l) [
      | inl (j, e, b) ↦ (
        record m { current_plugin = j; frame_counter = 0 },
        some j,
        ap (turn_to m) e,
        (inr b, refl, b),
      )
      | inr e ↦ (m, none, ap (turn_to m) e, (inr l, refl, refl))
    ]

get_next_lcd_screen_buffer-Kept :
    (is_l2 : Bool) (mask : ℕ) (m : LcdScreenPluginsManager)
    → Standing m
    → Returns m (get_next_lcd_screen_buffer is_l2 mask m)
unfolding get_next_lcd_screen_buffer
get_next_lcd_screen_buffer-Kept is_l2 mask m s =
    let counted = count_frame is_l2 m in
    if-holds (Returns m) m.no_plugins _ _ (λ p. (m, none, refl, (s, refl, refl)))
      (λ p.
        if-holds (Returns m) (not (ltb m.current_plugin (length m.plugins))) _ _
          (λ q. (m, none, refl, (s, refl, refl)))
          (λ q.
            let l : m.current_plugin < length m.plugins = ground (arith, q) in
            if-holds (Returns m) (leb (frames_of m.plugins m.current_plugin) counted.frame_counter)
              _ _ (λ r. next_screen-Kept mask counted l)
              (λ r. (counted, some m.current_plugin, refl, (inr l, refl, l)))))

jump_to_next_plugin-Standing :
    (m : LcdScreenPluginsManager)
    → Standing m
    → Standing (jump_to_next_plugin m) × ((jump_to_next_plugin m).plugins ≡ m.plugins)
unfolding jump_to_next_plugin
jump_to_next_plugin-Standing m s =
    if-holds (λ m'. Standing m' × (m'.plugins ≡ m.plugins)) _ _ m (λ t. (s, refl)) (λ t. (s, refl))

-- Over any requests of the LCD screen thread from a state where the iterator stands on a plugin,
-- or none is loaded, every call of `getNextLCDScreenBuffer` returns: its loop ends within one round
-- for each plugin. The state is again of that kind, the vector of plugins is the same, and each
-- screen is blank or of a loaded plugin.
pub run_all-Standing :
    (rs : List Request) (m : LcdScreenPluginsManager)
    → Standing m
    → (m' : LcdScreenPluginsManager) × (screens : List (Option ℕ)) × (run_all rs m
        ≡ some (m', screens))
      × Standing m'
      × (m'.plugins ≡ m.plugins)
      × All (IsLoaded m.plugins) screens
unfolding run_all unlock_plugin
run_all-Standing [] m s = (m, [], refl, s, refl, tt)
run_all-Standing (unlock ∷ rs) m s = run_all-Standing rs (unlock_plugin m) s
run_all-Standing (jump ∷ rs) m s =
    let (s₁, same) = jump_to_next_plugin-Standing m s in
    let (m', screens, e, s', kept, loaded) = run_all-Standing rs (jump_to_next_plugin m) s₁ in
    (m', screens, e, s', kept ∙ same, subst (λ ps. All (IsLoaded ps) screens) same loaded)
run_all-Standing (next_buffer is_l2 mask ∷ rs) m s =
    let (m₁, shown, e₁, (s₁, same, here)) = get_next_lcd_screen_buffer-Kept is_l2 mask m s in
    let (m', screens, e, s', kept, loaded) = run_all-Standing rs m₁ s₁ in
    (
      m',
      shown ∷ screens,
      rw (e₁, e, run_all) refl,
      s',
      kept ∙ same,
      (here, subst (λ ps. All (IsLoaded ps) screens) same loaded),
    )
