-- ===== src/DbusHandler.antt =====
-- src/bin/service/DBusHandler.cpp: the service of a session registers with the daemon, reports the
-- state of the session, and follows the devices. The state is that of both sides, the daemon's being
-- its clients manager. What DBus, logind and the file system do during an event is an argument.
pub mod Events
pub mod Same
pub mod Stays
pub mod Registered
pub mod Linked
pub mod Handled
pub mod Synchronized
pub mod Stale
use glogi_k.Prelude.{
  ℕ, Bool, true, false, not, ◌&&◌, List, [], ◌∷◌, Option, none, some, if◌then◌else◌, find, is_some,
  contains,
}
use glogi_k.DevicesManager.{
  DeviceStatus, status_unknown, status_started, status_stopped, status_unplugged, get_device_status,
  map_keys,
}
use glogi_k.ClientsManager.{
  SessionState, state_active, ClientsManager, Done, Reply, registered, already_registered,
  internal_error, is_active, register_client, unregister_client, update_client_state,
  toggle_client_ready_propertie,
}
use glogi_k.ClientsManager.Devices.{
  get_device_properties, delete_device_configuration, set_device_backlight_color,
  set_device_lcd_plugins_mask,
}
use glogi_k.DevicesHandler.{DevicesHandler, World, Effect, call, RemoteCall}
use glogi_k.DevicesHandler
use glogi_k.DevicesHandler.Containers.{
  start_device, stop_device, unplug_device, clear_devices, set_client_id,
  reload_device_configuration_file,
}

-- A client without an identifier has `none`, for "undefined". Whether the session's state is active
-- is all that the service asks of it.
pub record DbusHandler : Type 0 where
  pub client_id : Option ℕ
  pub session_object_path : ℕ
  pub session_state : SessionState
  pub register_status : Bool
  pub want_to_exit : Bool
  pub devices : DevicesHandler

pub record System : Type 0 where
  pub daemon : ClientsManager
  pub service : DbusHandler

-- What becomes of a remote method call: it is answered, or the daemon serves it and the answer does
-- not come, or it is not sent.
pub data Delivery : Type 0 where
  replied reply_lost not_sent : Delivery

-- The daemon behind the call, and the answer.
unfoldable pub remote :
    {A : Type 0} → Delivery → Done A → ClientsManager → ClientsManager × Option A
remote replied done m = (done.state, some done.result)
remote reply_lost done m = (done.state, none)
remote not_sent done m = (m, none)

-- What happens outside during one event. `same_version` compares the versions of both programs;
-- `status_answered` and `reaches` are about the calls for each device.
pub record Outside : Type 0 where
  pub register_delivery : Delivery
  pub unregister_delivery : Delivery
  pub update_delivery : Delivery
  pub toggle_delivery : Delivery
  pub started_delivery : Delivery
  pub stopped_delivery : Delivery
  pub status_answered : ℕ → Bool
  pub reaches : RemoteCall → Bool
  pub new_client_id : ℕ
  pub same_version : Bool
  pub session : Option SessionState
  pub world : ℕ → World

unfoldable pub with_client : {A : Type 0} → DbusHandler → A → (ℕ → A) → A
with_client s undefined f = elim s.client_id [ none ↦ undefined | some id ↦ f id ]

unfoldable pub set_daemon : ClientsManager → System → System
set_daemon daemon s = record s { daemon = daemon }

unfoldable pub set_service : DbusHandler → System → System
set_service service s = record s { service = service }

-- The calls of the devices handler, served by the daemon if they reach it.
unfoldable pub serve_call : ℕ → RemoteCall → ClientsManager → ClientsManager
serve_call id (DevicesHandler.get_device_properties device) m =
    (get_device_properties id device m).state
serve_call id (DevicesHandler.get_device_lcd_plugins_properties device) m = m
serve_call id (DevicesHandler.get_device_mkeys_id_array device) m = m
serve_call id (DevicesHandler.get_device_gkeys_id_array device) m = m
serve_call id (DevicesHandler.delete_device_configuration device) m =
    (delete_device_configuration id device m).state
serve_call id (DevicesHandler.set_device_backlight_color device rgb) m =
    (set_device_backlight_color id device rgb m).state
serve_call id (DevicesHandler.set_device_lcd_plugins_mask device mask_id mask) m =
    (set_device_lcd_plugins_mask id device mask_id mask m).state

unfoldable pub serve_calls : (RemoteCall → Bool) → ℕ → List Effect → ClientsManager → ClientsManager
serve_calls reaches id [] m = m
serve_calls reaches id (effect ∷ effects) m =
    let served : ClientsManager = elim effect [
      | DevicesHandler.call c ↦ if reaches c then serve_call id c m else m
      | other ↦ m
    ] in
    serve_calls reaches id effects served

-- A step of the devices handler, with the client's identifier that it has.
unfoldable pub run_devices :
    Outside → (DevicesHandler → DevicesHandler × List Effect) → System → System
run_devices o step s =
    let (devices, effects) = step s.service.devices in
    record s {
      service = record s.service { devices = devices };
      daemon = serve_calls o.reaches s.service.devices.client_id effects s.daemon;
    }

-- reportChangedState
unfoldable pub report_changed_state : Outside → System → System
report_changed_state o s =
    let reported = with_client s.service s (λ id.
      set_daemon
        (remote o.update_delivery (update_client_state id s.service.session_state s.daemon)
          s.daemon).0
        s) in
    if s.service.register_status then reported else s

unfoldable pub set_undefined : DbusHandler → DbusHandler
set_undefined s = record s { register_status = false; client_id = none }

-- What follows the answer to UnregisterClient.
unfoldable pub take_leave : ClientsManager × Option Bool → System → System
take_leave (daemon, none) s = set_daemon daemon s
take_leave (daemon, some false) s = set_daemon daemon s
take_leave (daemon, some true) s = record s { daemon = daemon; service = set_undefined s.service }

-- unregisterWithDaemon
unfoldable pub unregister_with_daemon : Outside → System → System
unregister_with_daemon o s =
    let unregistered = with_client s.service s (λ id.
      take_leave (remote o.unregister_delivery (unregister_client id s.daemon) s.daemon) s) in
    if s.service.register_status then unregistered else s

-- registerWithDaemon; the test that throws at its end is left to the caller.
unfoldable pub take_reply : Outside → Option Reply → System → System
take_reply o none s = s
take_reply o (some already_registered) s = s
take_reply o (some internal_error) s = s
take_reply o (some (registered id)) s =
    let s' = set_service (record s.service { client_id = some id; register_status = true }) s in
    let left = unregister_with_daemon o s' in if o.same_version then s' else left

unfoldable pub register_with_daemon : Outside → System → System
register_with_daemon o s =
    let (daemon, reply) =
      remote o.register_delivery
        (register_client s.service.session_object_path o.new_client_id s.daemon) s.daemon in
    let taken = take_reply o reply (set_daemon daemon s) in
    if s.service.register_status then s else taken

-- updateSessionState; `none` is its exception.
unfoldable pub update_session_state : Outside → System → Option System
update_session_state o s = elim o.session [
  | none ↦ none
  | some state ↦
      some (report_changed_state o (set_service (record s.service { session_state = state }) s))
]

-- GetDeviceStatus, which asks whether the client is known.
unfoldable pub device_status : ℕ → ℕ → ClientsManager → DeviceStatus
device_status id device m =
    if contains id m.connected_clients
    then get_device_status device m.devices_manager
    else status_unknown

-- GetStartedDevices and GetStoppedDevices.
unfoldable pub started_list : ℕ → ClientsManager → List ℕ
started_list id m =
    if contains id m.connected_clients then map_keys m.devices_manager.started_devices else []

unfoldable pub stopped_list : ℕ → ClientsManager → List ℕ
stopped_list id m =
    if contains id m.connected_clients then map_keys m.devices_manager.stopped_devices else []

-- The three signals, and the answer that each waits for.
pub data Kind : Type 0 where
  kind_started kind_stopped kind_unplugged : Kind

unfoldable pub is_expected : Kind → DeviceStatus → Bool
is_expected kind_started status_started = true
is_expected kind_started status_stopped = false
is_expected kind_started status_unplugged = false
is_expected kind_started status_unknown = false
is_expected kind_stopped status_stopped = true
is_expected kind_stopped status_started = false
is_expected kind_stopped status_unplugged = false
is_expected kind_stopped status_unknown = false
is_expected kind_unplugged status_unplugged = true
is_expected kind_unplugged status_started = false
is_expected kind_unplugged status_stopped = false
is_expected kind_unplugged status_unknown = false

-- The call of the devices handler, with its notification.
unfoldable pub move_device : Kind → World → ℕ → DevicesHandler → DevicesHandler × List Effect
move_device kind_started w device h = start_device w true device h
move_device kind_stopped w device h = stop_device w true device h
move_device kind_unplugged w device h = unplug_device w true device h

unfoldable pub one_device : Kind → Outside → ℕ → System → System
one_device kind o device s =
    let status = with_client s.service status_unknown (λ id. device_status id device s.daemon) in
    if o.status_answered device && is_expected kind status
    then run_devices o (move_device kind (o.world device) device) s
    else s

unfoldable pub each_device : Kind → Outside → List ℕ → System → System
each_device kind o [] s = s
each_device kind o (device ∷ devices) s = each_device kind o devices (one_device kind o device s)

-- devicesStarted ends with a report of an active session.
unfoldable pub devices_signal : Kind → Outside → List ℕ → System → System
devices_signal kind_started o devices s =
    let s' = each_device kind_started o devices s in
    if is_active s'.service.session_state then report_changed_state o s' else s'
devices_signal kind_stopped o devices s = each_device kind_stopped o devices s
devices_signal kind_unplugged o devices s = each_device kind_unplugged o devices s

-- A list of devices from the daemon; nothing follows on a failure.
unfoldable pub is_replied : Delivery → Bool
is_replied replied = true
is_replied reply_lost = false
is_replied not_sent = false

unfoldable pub start_listed : Outside → System → System
start_listed o s =
    let ids = with_client s.service [] (λ id. started_list id s.daemon) in
    if is_replied o.started_delivery then devices_signal kind_started o ids s else s

unfoldable pub stop_listed : Outside → System → System
stop_listed o s =
    let ids = with_client s.service [] (λ id. stopped_list id s.daemon) in
    if is_replied o.stopped_delivery then devices_signal kind_stopped o ids s else s

unfoldable pub toggle_ready : Outside → System → System
toggle_ready o s = with_client s.service s (λ id.
    set_daemon (remote o.toggle_delivery (toggle_client_ready_propertie id s.daemon) s.daemon).0 s)

-- initializeDevices
unfoldable pub initialize_devices : Outside → System → System
initialize_devices o s =
    let initialized = stop_listed o (toggle_ready o (start_listed o s)) in
    if s.service.register_status then initialized else s

-- clearAndUnregister
unfoldable pub clear_and_unregister : Bool → Outside → System → System
clear_and_unregister notifications o s =
    let cleared = run_devices o (clear_devices (o.world 0) notifications) s in
    if s.service.register_status then unregister_with_daemon o cleared else s
