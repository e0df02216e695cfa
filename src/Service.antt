-- ===== src/Service.antt =====
-- src/bin/service/DBusHandler.cpp, the signals of the daemon about a device, and what they use of
-- src/bin/service/devicesHandler.cpp: a signal reaches the banks of a started device while the
-- client is registered and its session is active. A device's name is a number here.
pub mod Accepts
pub mod Initial
pub mod Followed
pub mod Handled
use Prim.Native.String.{String}
use glogi_k.Prelude.{
  ℕ, Bool, true, false, ◌&&◌, List, [], ◌∷◌, ◌++◌, map, Option, none, some, if◌then◌else◌, Map,
  find, assign,
}
use glogi_k.Types.{Macro}
use glogi_k.UsbDevice.{
  Output, feature_report, device_mbank_switch, device_macro_recorded, device_macro_cleared,
  device_gkey_event, device_media_event,
}
use glogi_k.Banks.{Banks, BanksMap}
use glogi_k.KeyEvents.{Action, run_event, set_macro, clear_macro}

pub record Service : Type 0 where
  pub register_status : Bool
  pub session_is_active : Bool
  pub started_devices : Map Banks

-- What a signal makes the service do, its log of a failure included.
pub data Effect : Type 0 where
  act : Action → Effect
  save_device_configuration_file : ℕ → Effect
  do_device_fake_key_event : ℕ → String → Effect
  log_failure : Effect

unfoldable pub set_current_bank_id : ℕ → Banks → Banks
set_current_bank_id bank_id banks = record banks { current_bank_id = bank_id }

unfoldable pub set_banks : BanksMap → Banks → Banks
set_banks gkeys_banks banks = record banks { gkeys_banks = gkeys_banks }

unfoldable pub put_device : ℕ → Banks → Service → Service
put_device id banks s = record s { started_devices = assign id banks s.started_devices }

unfoldable pub set_device_current_bank_id : ℕ → ℕ → Service → Option Service
set_device_current_bank_id id bank_id s = elim (find id s.started_devices) [
  | none ↦ none
  | some banks ↦ some (put_device id (set_current_bank_id bank_id banks) s)
]

-- The catch of GLogiKExcept at the end of each handler.
unfoldable pub or_log : Service → Option (Service × List Effect) → Service × List Effect
or_log s none = (s, log_failure ∷ [])
or_log s (some r) = r

unfoldable pub mbank_switch : ℕ → ℕ → Service → Option (Service × List Effect)
mbank_switch id bank_id s = elim (set_device_current_bank_id id bank_id s) [
  | none ↦ none
  | some s' ↦ some (s', [])
]

unfoldable pub macro_recorded : ℕ → ℕ → Macro → Service → Option (Service × List Effect)
macro_recorded id key_id macro s = elim (find id s.started_devices) [
  | none ↦ none
  | some banks ↦ elim (set_macro banks.gkeys_banks macro banks.current_bank_id key_id) [
    | none ↦ none
    | some banks' ↦
        some (put_device id (set_banks banks' banks) s, save_device_configuration_file id ∷ [])
  ]
]

unfoldable pub macro_cleared : ℕ → ℕ → Service → Option (Service × List Effect)
macro_cleared id key_id s = elim (find id s.started_devices) [
  | none ↦ none
  | some banks ↦ elim (clear_macro banks.gkeys_banks banks.current_bank_id key_id) [
    | none ↦ none
    | some (cleared, banks') ↦ some (
      put_device id (set_banks banks' banks) s,
      if cleared then save_device_configuration_file id ∷ [] else [],
    )
  ]
]

unfoldable pub gkey_event :
    (List ℕ → Option (List ℕ)) → ℕ → ℕ → Service → Option (Service × List Effect)
gkey_event search_path id key_id s = elim (find id s.started_devices) [
  | none ↦ none
  | some banks ↦ elim (run_event search_path banks.gkeys_banks banks.current_bank_id key_id) [
    | none ↦ none
    | some actions ↦ some (s, map act actions)
  ]
]

-- The handler of each signal. A feature report goes to the keyboard, not to the service.
unfoldable pub handle_signal :
    (List ℕ → Option (List ℕ)) → ℕ → Output → Service → Option (Service × List Effect)
handle_signal search_path id (feature_report report) s = some (s, [])
handle_signal search_path id (device_mbank_switch bank_id) s = mbank_switch id bank_id s
handle_signal search_path id (device_macro_recorded key_id macro) s =
    macro_recorded id key_id macro s
handle_signal search_path id (device_macro_cleared key_id) s = macro_cleared id key_id s
handle_signal search_path id (device_gkey_event key_id) s = gkey_event search_path id key_id s
handle_signal search_path id (device_media_event event) s =
    some (s, do_device_fake_key_event id event ∷ [])

-- Behind the checks that all handlers share.
unfoldable pub receive : (List ℕ → Option (List ℕ)) → ℕ → Output → Service → Service × List Effect
receive search_path id signal s =
    if s.register_status && s.session_is_active
    then or_log s (handle_signal search_path id signal s)
    else (s, [])

pub receive_all : (List ℕ → Option (List ℕ)) → ℕ → List Output → Service → Service × List Effect
receive_all search_path id [] s = (s, [])
receive_all search_path id (signal ∷ signals) s =
    let (s', effects) = receive search_path id signal s in
    let (s'', more) = receive_all search_path id signals s' in (s'', effects ++ more)
