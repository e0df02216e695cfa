-- ===== src/KeyEvents.antt =====
-- src/bin/service/GKeysEventManager.cpp: what the desktop service does with a G-key: play its macro
-- or run its command, store a macro, clear it. `none` is an exception that reaches the caller.
pub mod Macros
pub mod Commands
use glogi_k.Prelude.{
  ℕ, Bool, true, false, not, ◌&&◌, List, [], ◌∷◌, ◌++◌, map, Option, none, some, leb, ◌==◌,
  if◌then◌else◌, length, find, contains, assign, is_some,
}
use glogi_k.Types.{KeyEvent, Macro, gkeyid_inv, macro_max_size}
use glogi_k.Macro.{check_macro}
use glogi_k.Banks.{
  GKeyEventType, gkey_inactive, gkey_macro, gkey_runcmd, gkey_invalid, GKeysEvent, BanksMap, MBank,
  gkeys_event, is_empty, reset_event, find_event, assign_event,
}

-- What reaches the desktop: a key event of the virtual keyboard, a process.
pub data Action : Type 0 where
  send_key_event : KeyEvent → Action
  spawn : List ℕ → List (List ℕ) → Action

-- std::getline(stream, item, ' ') until it fails: the items between the spaces, and no last item
-- that is empty.
unfoldable pub put_char : ℕ → List (List ℕ) → List (List ℕ)
put_char c [] = (c ∷ []) ∷ []
put_char c (item ∷ items) = (c ∷ item) ∷ items

unfoldable pub getlines : List ℕ → List (List ℕ)
getlines [] = []
getlines (c ∷ cs) = let rest = getlines cs in if c == 32 then [] ∷ rest else put_char c rest

unfoldable pub first_item : List (List ℕ) → List ℕ
first_item [] = []
first_item (exe ∷ args) = exe

unfoldable pub other_items : List (List ℕ) → List (List ℕ)
other_items [] = []
other_items (exe ∷ args) = args

-- `search_path` finds the executable in PATH, `none` where it is not there.
unfoldable pub spawn_process : (List ℕ → Option (List ℕ)) → List ℕ → List Action
spawn_process search_path command =
    let items = getlines command in
    elim (search_path (first_item items)) [
      | none ↦ []
      | some path ↦ spawn path (other_items items) ∷ []
    ]

unfoldable pub run_gkeys_event : (List ℕ → Option (List ℕ)) → GKeysEvent → List Action
run_gkeys_event search_path event = elim event.event_type [
  | gkey_inactive ↦ []
  | gkey_macro ↦ map send_key_event event.macro
  | gkey_runcmd ↦ spawn_process search_path event.command
  | gkey_invalid ↦ []
]

unfoldable pub run_event : (List ℕ → Option (List ℕ)) → BanksMap → ℕ → ℕ → Option (List Action)
run_event search_path banks bank_id key_id =
    if key_id == gkeyid_inv then some [] else elim (find_event banks bank_id key_id) [
      | none ↦ none
      | some event ↦ some (run_gkeys_event search_path event)
    ]

-- The private overload.
unfoldable pub set_checked_macro : BanksMap → ℕ → ℕ → Macro → Option BanksMap
set_checked_macro banks bank_id key_id macro =
    if key_id == gkeyid_inv
    then none
    else if leb macro_max_size (length macro)
    then none
    else elim (find_event banks bank_id key_id) [
      | none ↦ none
      | some event ↦ some (assign_event banks bank_id key_id (gkeys_event macro))
    ]

unfoldable pub set_macro : BanksMap → Macro → ℕ → ℕ → Option BanksMap
set_macro banks macro bank_id key_id =
    if key_id == gkeyid_inv then some banks else elim (check_macro macro) [
      | none ↦ none
      | some checked ↦ set_checked_macro banks bank_id key_id checked
    ]

-- The result of the function and the banks.
unfoldable pub clear_macro : BanksMap → ℕ → ℕ → Option (Bool × BanksMap)
clear_macro banks bank_id key_id =
    if key_id == gkeyid_inv then none else elim (find_event banks bank_id key_id) [
      | none ↦ none
      | some event ↦
          if is_empty event.macro
          then some (false, banks)
          else some (true, assign_event banks bank_id key_id (reset_event event))
    ]
