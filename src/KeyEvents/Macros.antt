-- ===== src/KeyEvents/Macros.antt =====
-- A macro that is stored on a G-key is what the key plays, until it is cleared.
use glogi_k.Prelude.{
  ℕ, ◌<◌, not, ◌&&◌, List, [], ◌∷◌, map, Option, none, some, ◌≡◌, refl, arith, ◌==◌, if◌then◌else◌,
  length, find, find-assign, assign, is_some, Option-cases, inl, inr, ◌≢◌,
}
use glogi_k.Types.{Macro, gkeyid_inv, macro_max_size}
use glogi_k.Macro.{check_macro}
use glogi_k.Macro.Size.{check_macro_total}
use glogi_k.Banks.{
  gkey_inactive, GKeysEvent, BanksMap, gkeys_event, is_empty, reset_event, clear_event_macro,
  find_event, assign_event,
}
use glogi_k.KeyEvents.{
  send_key_event, run_gkeys_event, run_event, set_checked_macro, set_macro, clear_macro,
}

-- An assignment to one event changes what is found there, and nothing elsewhere.
pub find_event-assign_event :
    (banks : BanksMap) (b k b' k' : ℕ) (e e₀ : GKeysEvent)
    → find_event banks b k ≡ some e₀
    → find_event (assign_event banks b k e) b' k'
      ≡ (if b == b' && k == k' then some e else find_event banks b' k')
unfolding find_event assign_event is_some
find_event-assign_event banks b k b' k' e e₀ h = elim (Option-cases (find b banks)) [
  | inl n ↦ ground arith
  | inr (bank, s) ↦
      ground (arith, find-assign b' b (assign k e bank) banks, find-assign k' k e bank)
]

played :
    (search_path : List ℕ → Option (List ℕ)) (m : Macro)
    → run_gkeys_event search_path (gkeys_event m) ≡ map send_key_event m
unfolding run_gkeys_event gkeys_event is_empty
played search_path [] = refl
played search_path (e ∷ m) = refl

-- What `setMacro` and `clearMacro` assign.
pub set_macro-assign_event :
    (banks : BanksMap) (macro : Macro) (b k : ℕ) (e₀ : GKeysEvent)
    → k ≢ gkeyid_inv
    → find_event banks b k ≡ some e₀
    → (m : Macro) × (check_macro macro ≡ some m)
      × (length m < macro_max_size)
      × (set_macro banks macro b k ≡ some (assign_event banks b k (gkeys_event m)))
unfolding set_macro set_checked_macro
set_macro-assign_event banks macro b k e₀ valid h =
    let (m, e, short) = check_macro_total macro in (m, e, short, ground arith)

pub clear_macro-assign_event :
    (banks : BanksMap) (b k : ℕ) (e₀ : GKeysEvent)
    → k ≢ gkeyid_inv
    → find_event banks b k ≡ some e₀
    → clear_macro banks b k
      ≡ some (
        not (is_empty e₀.macro),
        if is_empty e₀.macro then banks else assign_event banks b k (reset_event e₀),
      )
unfolding clear_macro
clear_macro-assign_event banks b k e₀ valid h = ground arith

-- For a G-key that the banks have, and any macro, `setMacro` succeeds and stores what `checkMacro`
-- makes of it, which is shorter than MACRO_T_MAX_SIZE. The key then plays exactly those events, and
-- every other event of every bank is as before.
pub set_macro-run_event :
    (search_path : List ℕ → Option (List ℕ)) (banks : BanksMap) (macro : Macro) (b k b' k' : ℕ)
    (e₀ : GKeysEvent)
    → k ≢ gkeyid_inv
    → find_event banks b k ≡ some e₀
    → (m : Macro) × (banks' : BanksMap) × (check_macro macro ≡ some m)
      × (length m < macro_max_size)
      × (set_macro banks macro b k ≡ some banks')
      × (run_event search_path banks' b k ≡ some (map send_key_event m))
      × (find_event banks' b' k'
          ≡ (if b == b' && k == k' then some (gkeys_event m) else find_event banks b' k'))
unfolding run_event
set_macro-run_event search_path banks macro b k b' k' e₀ valid h =
    let (m, e, short, set) = set_macro-assign_event banks macro b k e₀ valid h in
    let banks' = assign_event banks b k (gkeys_event m) in
    let stored : find_event banks' b k ≡ some (gkeys_event m) =
      ground (arith, find_event-assign_event banks b k b k (gkeys_event m) e₀ h) in
    (
      m,
      banks',
      e,
      short,
      set,
      ground (arith, played search_path m),
      find_event-assign_event banks b k b' k' (gkeys_event m) e₀ h,
    )

-- For a G-key that the banks have, `clearMacro` succeeds and tells whether there was a macro. If
-- there was one the key then does nothing; the command of the event, and every other event of every
-- bank, are as before.
clear_macro-run_event :
    (search_path : List ℕ → Option (List ℕ)) (banks : BanksMap) (b k b' k' : ℕ) (e₀ : GKeysEvent)
    → k ≢ gkeyid_inv
    → find_event banks b k ≡ some e₀
    → (banks' : BanksMap) × (clear_macro banks b k ≡ some (not (is_empty e₀.macro), banks'))
      × (run_event search_path banks' b k
          ≡ (if is_empty e₀.macro then run_event search_path banks b k else some []))
      × (find_event banks' b' k' ≡ (
          if b == b' && k == k' && not (is_empty e₀.macro)
          then some (record { macro = []; command = e₀.command; event_type = gkey_inactive })
          else find_event banks b' k'))
unfolding run_event reset_event clear_event_macro run_gkeys_event
clear_macro-run_event search_path banks b k b' k' e₀ valid h =
    let banks' = if is_empty e₀.macro then banks else assign_event banks b k (reset_event e₀) in
    (
      banks',
      clear_macro-assign_event banks b k e₀ valid h,
      ground (arith, find_event-assign_event banks b k b k (reset_event e₀) e₀ h),
      ground (arith, find_event-assign_event banks b k b' k' (reset_event e₀) e₀ h),
    )

-- `setMacro`, `clearMacro` and `runEvent` on a G-key that the banks do not have throw and change
-- nothing; on GKEY_INV only `clearMacro` throws.
find_event-missing :
    (search_path : List ℕ → Option (List ℕ)) (banks : BanksMap) (macro : Macro) (b k : ℕ)
    → find_event banks b k ≡ none
    → (set_macro banks macro b k ≡ (if k == gkeyid_inv then some banks else none))
      × (clear_macro banks b k ≡ none)
      × (run_event search_path banks b k ≡ (if k == gkeyid_inv then some [] else none))
unfolding set_macro set_checked_macro clear_macro run_event
find_event-missing search_path banks macro b k h =
    let (m, e, short) = check_macro_total macro in (ground arith, ground arith, ground arith)
