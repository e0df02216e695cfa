-- ===== src/Scenarios/Desktop.antt =====
-- The desktop service at concrete inputs, and the whole way from the keyboard to a stored macro.
use glogi_k.Prelude.{
  ℕ, ◌<◌, false, ◌&&◌, leb, List, [], ◌∷◌, map, Option, some, none, ◌≡◌, refl, arith, length, find,
  ◌==◌, if◌then◌else◌, All,
}
use glogi_k.Types.{Macro, macro_max_size, mkey_m0}
use glogi_k.Macro.{check_macro}
use glogi_k.Banks.{BanksMap, GKeysEvent, gkeys_event, init_banks, check_banks_keys, find_event}
use glogi_k.Banks.Full.{listed, init_banks-find_event, check_banks_keys-find_event}
use glogi_k.KeyEvents.{
  send_key_event, getlines, put_char, first_item, spawn, spawn_process, run_event, set_macro,
}
use glogi_k.KeyEvents.Macros.{set_macro-run_event}
use glogi_k.KeyEvents.Commands.{join, HasNoSpace, ends_in_space, spawn_process-join}
use glogi_k.KeyboardDriver.Listen.{Listener, run}
use glogi_k.Service.{receive_all}
use glogi_k.Service.Accepts.{Ready, IsSuccess, run-receive_all}
use glogi_k.Service.Initial.{initial_banks, init_banks-Full}
use glogi_k.Scenarios.{press, release, listener, record_g3, service}
use glogi_k.Scenarios.Keyboard.{listener-Sound}

-- Every executable is in PATH, under its own name.
abbrev in_path : List ℕ → Option (List ℕ)
in_path exe = some exe

init_banks-find_event_example : find_event (init_banks (1 ∷ 2 ∷ 3 ∷ []) (1 ∷ 2 ∷ []) []) 2 1 ≡ (
    if listed 2 (mkey_m0 ∷ 1 ∷ 2 ∷ 3 ∷ []) && listed 1 (1 ∷ 2 ∷ [])
    then some (gkeys_event [])
    else none)
init_banks-find_event_example = init_banks-find_event 1 (2 ∷ 3 ∷ []) (1 ∷ 2 ∷ []) 2 1

-- A file that names a bank and a key that do not exist.
abbrev stored : BanksMap
stored =
    (0, (1, gkeys_event (press 30 ∷ release 30 ∷ [])) ∷ (19, gkeys_event []) ∷ []) ∷ (4, []) ∷ []

check_banks_keys-find_event_example :
    find_event (check_banks_keys stored) 0 1
    ≡ (if leb 0 3 && (leb 1 1 && leb 1 18) then find_event stored 0 1 else none)
check_banks_keys-find_event_example = check_banks_keys-find_event stored 0 1

abbrev typed : Macro
typed = press 30 ∷ press 48 ∷ release 48 ∷ []

abbrev stored_event : GKeysEvent
stored_event = gkeys_event (press 30 ∷ release 30 ∷ [])

stored_event_found : find_event stored 0 1 ≡ some stored_event
unfolding find_event find
stored_event_found = refl

set_macro-run_event_example :
    (m : Macro) × (banks' : BanksMap) × (check_macro typed ≡ some m)
    × (length m < macro_max_size)
    × (set_macro stored typed 0 1 ≡ some banks')
    × (run_event in_path banks' 0 1 ≡ some (map send_key_event m))
    × (find_event banks' 0 1
        ≡ (if 0 == 0 && 1 == 1 then some (gkeys_event m) else find_event stored 0 1))
set_macro-run_event_example =
    set_macro-run_event in_path stored typed 0 1 0 1 stored_event (omega arith) stored_event_found

missing_event : find_event stored 0 2 ≡ none
unfolding find_event find
missing_event = refl

-- ls -l, in the codes of its characters
abbrev ls_l : List ℕ
ls_l = 108 ∷ 115 ∷ 32 ∷ 45 ∷ 108 ∷ []

ls_found : in_path (first_item (getlines ls_l)) ≡ some (108 ∷ 115 ∷ [])
unfolding getlines put_char first_item
ls_found = refl

ls_ends : ends_in_space ls_l ≡ false
unfolding ends_in_space
ls_ends = refl

spawn_process-join_example :
    (exe : List ℕ) × (args : List (List ℕ)) × (in_path exe ≡ some (108 ∷ 115 ∷ []))
    × (spawn_process in_path ls_l ≡ spawn (108 ∷ 115 ∷ []) args ∷ [])
    × (join (exe ∷ args) ≡ ls_l)
    × All HasNoSpace (exe ∷ args)
spawn_process-join_example = spawn_process-join in_path ls_l (108 ∷ 115 ∷ []) ls_ends ls_found

service-Ready : Ready 7 service
unfolding find
service-Ready = record {
  banks = initial_banks;
  started = refl;
  full = init_banks-Full;
  registered = refl;
  active = refl;
}

run-receive_all_example :
    (l' : Listener) × (run listener record_g3 ≡ some l')
    × Ready 7 (receive_all in_path 7 l'.sent service).0
    × All IsSuccess (receive_all in_path 7 l'.sent service).1
run-receive_all_example =
    run-receive_all in_path 7 listener record_g3 service listener-Sound service-Ready
