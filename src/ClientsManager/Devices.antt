-- ===== src/ClientsManager/Devices.antt =====
-- src/bin/daemon/clientsManager.cpp and client.cpp: the calls of a client about a device.
use glogi_k.Prelude.{
  ℕ, Bool, true, false, ◌&&◌, List, [], ◌∷◌, ◌++◌, Option, none, some, leb, if◌then◌else◌, Map,
  find, contains, assign, erase,
}
use glogi_k.DevicesManager.{
  DevicesManager, StatusSignal, devices_started, devices_stopped, start_device, stop_device,
}
use glogi_k.ClientsManager.{
  ClientDevice, Client, ClientsManager, Effect, send_status, Done, is_active, refuse, has_listeners,
  initialize_device, put_clients, set_device_active_user,
}

-- The result of a call that only changes the devices of one client.
unfoldable pub change_devices :
    ℕ → (Client → Option (Map ClientDevice)) → ClientsManager → Done Bool
change_devices id f m = elim (find id m.connected_clients) [
  | none ↦ refuse m
  | some client ↦ elim (f client) [
    | none ↦ refuse m
    | some devices ↦ record {
      state = put_clients (assign id (record client { devices = devices }) m.connected_clients) m;
      effects = [];
      result = true;
    }
  ]
]

unfoldable pub delete_device : ℕ → Client → Option (Map ClientDevice)
delete_device device client =
    if contains device client.devices then some (erase device client.devices) else none

unfoldable pub change_device :
    (ClientDevice → ClientDevice) → ℕ → Client → Option (Map ClientDevice)
change_device f device client = elim (find device client.devices) [
  | none ↦ none
  | some d ↦ some (assign device (f d) client.devices)
]

unfoldable pub delete_device_configuration : ℕ → ℕ → ClientsManager → Done Bool
delete_device_configuration id device m = change_devices id (delete_device device) m

unfoldable pub set_device_backlight_color : ℕ → ℕ → ℕ × ℕ × ℕ → ClientsManager → Done Bool
set_device_backlight_color id device rgb m =
    change_devices id (change_device (λ d. record d { rgb = rgb }) device) m

-- A mask other than the first throws in `setLCDPluginsMask`, which the client catches.
unfoldable pub set_device_lcd_plugins_mask : ℕ → ℕ → ℕ → ℕ → ClientsManager → Done Bool
set_device_lcd_plugins_mask id device mask_id mask m =
    if leb mask_id 1
    then change_devices id (change_device (λ d. record d { lcd_plugins_mask1 = mask }) device) m
    else refuse m

-- Only clients that are alive get the properties; the client object of the device is made first.
unfoldable pub get_device_properties : ℕ → ℕ → ClientsManager → Done Bool
get_device_properties id device m =
    change_devices id
      (λ client. if client.check then some (initialize_device device client.devices) else none) m

-- The three guards of `startDevice` and `stopDevice`.
unfoldable pub is_allowed : Client → Bool
is_allowed client = client.ready && (client.check && is_active client.session_state)

unfoldable pub status_effect : Bool → StatusSignal → ClientsManager → List Effect
status_effect ok signal m =
    if ok && (m.enabled_signals && has_listeners m) then send_status signal ∷ [] else []

unfoldable pub put_devices_manager : DevicesManager → ClientsManager → ClientsManager
put_devices_manager devices_manager m = record m { devices_manager = devices_manager }

unfoldable pub client_stop_device : ℕ → ℕ → ClientsManager → Done Bool
client_stop_device id device m = elim (find id m.connected_clients) [
  | none ↦ refuse m
  | some client ↦
      let (ok, devices) = stop_device device m.devices_manager in
      if is_allowed client
      then record {
        state = put_devices_manager devices m;
        effects = status_effect ok (devices_stopped (device ∷ [])) m;
        result = ok;
      }
      else refuse m
]

unfoldable pub client_start_device : (ℕ → Bool) → ℕ → ℕ → ClientsManager → Done Bool
client_start_device opens id device m = elim (find id m.connected_clients) [
  | none ↦ refuse m
  | some client ↦
      let (ok, devices) = start_device opens device m.devices_manager in
      if is_allowed client
      then record {
        state = put_devices_manager devices m;
        effects =
            (if ok then set_device_active_user client device else [])
            ++ status_effect ok (devices_started (device ∷ [])) m;
        result = ok;
      }
      else refuse m
]

unfoldable pub set_enabled_signals : Bool → ClientsManager → ClientsManager
set_enabled_signals b m = record m { enabled_signals = b }

-- The signal behind a restart does not ask `_enabledSignals`.
unfoldable pub restart_device : (ℕ → Bool) → ℕ → ℕ → ClientsManager → Done Bool
restart_device opens id device m =
    let stopped = client_stop_device id device (set_enabled_signals false m) in
    let started = client_start_device opens id device stopped.state in
    let signal =
      if started.result then devices_started (device ∷ []) else devices_stopped (device ∷ []) in
    if stopped.result
    then record {
      state = set_enabled_signals true started.state;
      effects =
          stopped.effects
          ++ (started.effects
              ++ status_effect true signal (set_enabled_signals true started.state));
      result = started.result;
    }
    else record {
      state = set_enabled_signals true stopped.state;
      effects = stopped.effects;
      result = false;
    }
