-- ===== src/ClientsManager.antt =====
-- src/bin/daemon/clientsManager.cpp and client.cpp: the desktop services that are connected to the
-- daemon, their session states, and who may start and stop a device. Client and device names and
-- session paths are numbers; a new client's random name is an argument.
pub mod Devices
pub mod Calls
pub mod Counted
pub mod Joining
pub mod Serving
pub mod Register
pub mod Allowed
use glogi_k.Prelude.{
  ℕ, ◌+◌, ◌-◌, ◌%◌, ◌^◌, Bool, true, false, not, ◌&&◌, List, [], ◌∷◌, ◌++◌, Option, none, some,
  ◌==◌, leb, if◌then◌else◌, length, Map, find, contains, assign, erase, is_some,
}
use glogi_k.DevicesManager.{
  DevicesManager, StatusSignal, devices_started, devices_stopped, map_keys, set_num_clients,
  start_device, stop_device,
}

pub data SessionState : Type 0 where
  state_unknown state_active state_online state_other : SessionState

pub record ClientDevice : Type 0 where
  pub rgb : ℕ × ℕ × ℕ
  pub lcd_plugins_mask1 : ℕ

pub record Client : Type 0 where
  pub session_state : SessionState
  pub session_object_path : ℕ
  pub devices : Map ClientDevice
  pub check : Bool
  pub ready : Bool

-- `num_active` is an unsigned int.
pub record ClientsManager : Type 0 where
  pub connected_clients : Map Client
  pub num_active : ℕ
  pub enabled_signals : Bool
  pub devices_manager : DevicesManager

-- What a call makes the daemon do besides.
pub data Effect : Type 0 where
  reset_devices_states report_yourself : Effect
  set_device_active_configuration : ℕ → ClientDevice → Effect
  send_status : StatusSignal → Effect

-- The state, what else happens, and the result.
pub record Done (A : Type 0) : Type 0 where
  pub state : ClientsManager
  pub effects : List Effect
  pub result : A

unfoldable pub is_active : SessionState → Bool
is_active state_active = true
is_active state_unknown = false
is_active state_online = false
is_active state_other = false

-- The result of a test that fails: nothing changes.
unfoldable pub refuse : ClientsManager → Done Bool
refuse m = record { state = m; effects = []; result = false }

unfoldable pub decrease_active : ClientsManager → ClientsManager
decrease_active m = record m { num_active = (m.num_active + (2 ^ 32 - 1)) % 2 ^ 32 }

unfoldable pub increase_active : ClientsManager → ClientsManager
increase_active m = record m { num_active = (m.num_active + 1) % 2 ^ 32 }

-- The constructor: the client gets a configuration of each started and stopped device.
abbrev pub new_device : ClientDevice
new_device = record { rgb = (255, 255, 255); lcd_plugins_mask1 = 0 }

unfoldable pub initialize_device : ℕ → Map ClientDevice → Map ClientDevice
initialize_device id devices = if contains id devices then devices else (id, new_device) ∷ devices

unfoldable pub initialize_devices : List ℕ → Map ClientDevice → Map ClientDevice
initialize_devices [] devices = devices
initialize_devices (id ∷ ids) devices = initialize_devices ids (initialize_device id devices)

unfoldable pub new_client : ℕ → DevicesManager → Client
new_client path m = record {
  session_state = state_unknown;
  session_object_path = path;
  devices =
      initialize_devices (map_keys m.stopped_devices)
        (initialize_devices (map_keys m.started_devices) []);
  check = true;
  ready = false;
}

unfoldable pub put_clients : Map Client → ClientsManager → ClientsManager
put_clients clients m = record m { connected_clients = clients }

-- setNumClients(_connectedClients.size())
unfoldable pub count_clients : ClientsManager → ClientsManager
count_clients m = record m {
  devices_manager = set_num_clients (length m.connected_clients) m.devices_manager;
}

unfoldable pub unregister_client : ℕ → ClientsManager → Done Bool
unregister_client id m = elim (find id m.connected_clients) [
  | none ↦ refuse m
  | some client ↦
      let active = is_active client.session_state in
      let m₁ = if active then decrease_active m else m in
      record {
        state = count_clients (put_clients (erase id m₁.connected_clients) m₁);
        effects = if active then reset_devices_states ∷ [] else [];
        result = true;
      }
]

unfoldable pub unregister_all : List ℕ → ClientsManager → ClientsManager × List Effect
unregister_all [] m = (m, [])
unregister_all (id ∷ ids) m =
    let done = unregister_client id m in
    let (m', more) = unregister_all ids done.state in (m', done.effects ++ more)

-- Whether a signal to the clients is sent: their number is a uint8_t there.
unfoldable pub has_listeners : ClientsManager → Bool
has_listeners m = not (length m.connected_clients % 256 == 0)

-- The loop over the clients: whether one that is alive has the path, and those that are not alive.
unfoldable pub path_is_taken : ℕ → Map Client → Bool
path_is_taken path [] = false
path_is_taken path ((id, client) ∷ rest) =
    if client.check && client.session_object_path == path then true else path_is_taken path rest

unfoldable pub lost_clients : Map Client → List ℕ
lost_clients [] = []
lost_clients ((id, client) ∷ rest) =
    if client.check then lost_clients rest else id ∷ lost_clients rest

unfoldable pub uncheck_all : Map Client → Map Client
uncheck_all [] = []
uncheck_all ((id, client) ∷ rest) = (id, record client { check = false }) ∷ uncheck_all rest

pub data Reply : Type 0 where
  registered : ℕ → Reply
  already_registered internal_error : Reply

unfoldable pub add_client : ℕ → ℕ → ClientsManager → ClientsManager × Reply
add_client path id m = if contains id m.connected_clients then (m, internal_error) else (
  count_clients (put_clients ((id, new_client path m.devices_manager) ∷ m.connected_clients) m),
  registered id,
)

unfoldable pub register_client : ℕ → ℕ → ClientsManager → Done Reply
register_client path id m =
    let (m₁, effects) = unregister_all (lost_clients m.connected_clients) m in
    let (m₂, reply) = add_client path id m₁ in
    if path_is_taken path m.connected_clients
    then record {
      state = put_clients (uncheck_all m.connected_clients) m;
      effects = if has_listeners m then report_yourself ∷ [] else [];
      result = already_registered;
    }
    else record { state = m₂; effects = effects; result = reply }

-- pClient->setDeviceActiveUser
unfoldable pub set_device_active_user : Client → ℕ → List Effect
set_device_active_user client id = elim (find id client.devices) [
  | none ↦ []
  | some device ↦ set_device_active_configuration id device ∷ []
]

unfoldable pub set_active_user : Client → List ℕ → List Effect
set_active_user client [] = []
set_active_user client (id ∷ ids) = set_device_active_user client id ++ set_active_user client ids

unfoldable pub is_handled : SessionState → Bool
is_handled state_active = true
is_handled state_online = true
is_handled state_unknown = false
is_handled state_other = false

unfoldable pub change_active : Bool → Bool → ClientsManager → ClientsManager
change_active before now m =
    if now then if before then m else increase_active m else if before then decrease_active m else m

unfoldable pub update_client_state : ℕ → SessionState → ClientsManager → Done Bool
update_client_state id state m = elim (find id m.connected_clients) [
  | none ↦ refuse m
  | some old ↦
      let client = record old { session_state = state; check = true } in
      let m₁ =
        change_active (is_active old.session_state) (is_active state)
          (put_clients (assign id client m.connected_clients) m) in
      if is_handled state
      then record {
        state = m₁;
        effects =
            (if is_active state && client.ready
              then set_active_user client (map_keys m.devices_manager.started_devices)
              else [])
            ++ (if m₁.num_active == 0 then reset_devices_states ∷ [] else []);
        result = true;
      }
      else refuse m
]

unfoldable pub toggle_client_ready_propertie : ℕ → ClientsManager → Done Bool
toggle_client_ready_propertie id m = elim (find id m.connected_clients) [
  | none ↦ refuse m
  | some old ↦
      let client = record old { ready = not old.ready } in
      record {
        state = put_clients (assign id client m.connected_clients) m;
        effects =
            if client.ready && is_active client.session_state
            then set_active_user client (map_keys m.devices_manager.started_devices)
            else [];
        result = true;
      }
]
