-- ===== src/DbusHandler/Events.antt =====
-- src/bin/service/DBusHandler.cpp: what makes the service act, and sequences of such events.
use glogi_k.Prelude.{ℕ, Bool, true, false, List, [], ◌∷◌, none, some, if◌then◌else◌}
use glogi_k.DevicesManager.{DevicesManager}
use glogi_k.ClientsManager.{ClientsManager, is_active}
use glogi_k.DevicesHandler.Containers.{set_client_id, reload_device_configuration_file}
use glogi_k.DbusHandler.{
  System, Outside, Kind, set_service, set_daemon, run_devices, report_changed_state,
  unregister_with_daemon, register_with_daemon, update_session_state, devices_signal,
  initialize_devices, clear_and_unregister,
}

unfoldable pub exit_later : System → System
exit_later s = set_service (record s.service { want_to_exit = true }) s

-- _devices.setClientID(_clientID)
unfoldable pub pass_client_id : System → System
pass_client_id s = elim s.service.client_id [
  | none ↦ s
  | some id ↦ set_service (record s.service { devices = set_client_id id s.service.devices }) s
]

-- What follows a registration, in daemonIsStarting; an exception ends the service.
unfoldable pub follow_registration : Outside → System → System
follow_registration o s = elim (update_session_state o s) [
  | none ↦ exit_later s
  | some s' ↦ initialize_devices o (pass_client_id s')
]

unfoldable pub daemon_is_starting : Outside → System → System
daemon_is_starting o s =
    let s' = register_with_daemon o s in
    let started = if s'.service.register_status then follow_registration o s' else exit_later s' in
    if s.service.register_status then s else started

unfoldable pub daemon_is_stopping : Outside → System → System
daemon_is_stopping o s = clear_and_unregister true o s

-- The constructor, behind setCurrentSessionObjectPath; it ends in an exception where the test is
-- false. Whether the daemon answers GetDaemonDependenciesMap is an argument.
unfoldable pub construct : Outside → Bool → System → System × Bool
construct o dependencies_answered s =
    let s' = register_with_daemon o s in
    let ready : System × Bool = elim (update_session_state o s') [
      | none ↦ (unregister_with_daemon o s', false)
      | some s₂ ↦
          if dependencies_answered
          then (initialize_devices o (pass_client_id s₂), true)
          else (unregister_with_daemon o s₂, false)
    ] in
    if s'.service.register_status then ready else (s', false)

-- The PropertiesChanged signal of logind; an exception of the callback changes nothing.
unfoldable pub session_changed : Outside → System → System
session_changed o s = elim (update_session_state o s) [ none ↦ s | some s' ↦ s' ]

-- The loop of checkNotifyEvents, for one device.
unfoldable pub file_changed : Outside → ℕ → System → System
file_changed o device s =
    let s' = run_devices o (reload_device_configuration_file (o.world device) device) s in
    if is_active s'.service.session_state then report_changed_state o s' else s'

-- An event of the service, or a step that the daemon makes with its devices.
pub data Event : Type 0 where
  starting stopping changed report_yourself exiting : Outside → Event
  signalled : Kind → Outside → List ℕ → Event
  modified : Outside → ℕ → Event
  devices_moved : DevicesManager → Event

unfoldable pub step : Event → System → System
step (starting o) s = daemon_is_starting o s
step (stopping o) s = daemon_is_stopping o s
step (changed o) s = session_changed o s
step (report_yourself o) s = report_changed_state o s
step (exiting o) s = clear_and_unregister false o s
step (signalled kind o devices) s = devices_signal kind o devices s
step (modified o device) s = file_changed o device s
step (devices_moved m) s = set_daemon (record s.daemon { devices_manager = m }) s

-- Before each event, what others do to the daemon: calls of its other clients, or a new start.
unfoldable pub step_all : List ((ClientsManager → ClientsManager) × Event) → System → System
step_all [] s = s
step_all ((others, e) ∷ es) s = step_all es (step e (set_daemon (others s.daemon) s))
