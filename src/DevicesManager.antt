-- ===== src/DevicesManager.antt =====
-- src/bin/daemon/devicesManager.cpp: which devices are started, stopped and unplugged. A device's
-- name is a number. What the drivers do is an argument: whether a device opens, and whether its
-- threads still run. `none` is an exception that leaves the function.
pub mod Disjoint
pub mod Good
pub mod Runs
pub mod Moves
use glogi_k.Prelude.{
  ℕ, ◌%◌, Bool, true, false, not, ◌&&◌, List, [], ◌∷◌, ◌++◌, Option, none, some, ◌==◌,
  if◌then◌else◌, Map, find, contains, insert, erase, is_some,
}

-- The part of a USBDeviceID that decides which driver it has.
pub record DeviceDriver : Type 0 where
  pub driver_id : ℕ

pub record DevicesManager : Type 0 where
  pub drivers : List ℕ
  pub detected_devices : Map DeviceDriver
  pub started_devices : Map DeviceDriver
  pub stopped_devices : Map DeviceDriver
  pub unplugged_devices : Map DeviceDriver
  pub sleeping_devices : List ℕ
  pub num_clients : ℕ

pub data StatusSignal : Type 0 where
  devices_started devices_stopped devices_unplugged : List ℕ → StatusSignal

-- setNumClients takes a uint8_t
unfoldable pub set_num_clients : ℕ → DevicesManager → DevicesManager
set_num_clients num m = record m { num_clients = num % 256 }

-- Nothing is sent without clients, or about no device.
unfoldable pub send_status_signal : DevicesManager → StatusSignal → List ℕ → List StatusSignal
send_status_signal m signal [] = []
send_status_signal m signal (id ∷ ids) = if m.num_clients == 0 then [] else signal ∷ []

unfoldable pub map_keys {ℓ} : {A : Type ℓ} → Map A → List ℕ
map_keys [] = []
map_keys ((k, v) ∷ m) = k ∷ map_keys m

-- container[devID] = device
unfoldable pub put {ℓ} : {A : Type ℓ} → ℕ → A → Map A → Map A
put k v m = (k, v) ∷ erase k m

-- The loop over the drivers, up to the first with the device's identifier.
unfoldable pub has_driver : List ℕ → ℕ → Bool
has_driver [] id = false
has_driver (d ∷ ds) id = if id == d then true else has_driver ds id

unfoldable pub to_started : ℕ → DeviceDriver → DevicesManager → DevicesManager
to_started id device m = record m {
  started_devices = put id device m.started_devices;
  stopped_devices = erase id m.stopped_devices;
}

unfoldable pub to_stopped : ℕ → DeviceDriver → DevicesManager → DevicesManager
to_stopped id device m = record m {
  stopped_devices = put id device m.stopped_devices;
  started_devices = erase id m.started_devices;
}

unfoldable pub to_unplugged : ℕ → DeviceDriver → DevicesManager → DevicesManager
to_unplugged id device m = record m {
  unplugged_devices = put id device m.unplugged_devices;
  stopped_devices = erase id m.stopped_devices;
}

-- `opens` tells whether `openDevice` returns or throws.
unfoldable pub start_device : (ℕ → Bool) → ℕ → DevicesManager → Bool × DevicesManager
start_device opens id m = elim (find id m.stopped_devices) [
  | none ↦ (false, m)
  | some device ↦
      if has_driver m.drivers device.driver_id && opens id
      then (true, to_started id device m)
      else (false, m)
]

unfoldable pub stop_device : ℕ → DevicesManager → Bool × DevicesManager
stop_device id m = elim (find id m.started_devices) [
  | none ↦ (false, m)
  | some device ↦
      if has_driver m.drivers device.driver_id then (true, to_stopped id device m) else (false, m)
]

-- One round of the loop over the detected devices, and whether the device was initialized.
unfoldable pub initialize_device :
    (ℕ → Bool) → Bool → ℕ → DeviceDriver → DevicesManager → Bool × DevicesManager
initialize_device opens open_devices id device m =
    if contains id m.started_devices
    then (false, m)
    else if contains id m.stopped_devices
    then (false, m)
    else if has_driver m.drivers device.driver_id
    then if open_devices
      then if opens id
        then (true, record m { started_devices = put id device m.started_devices })
        else (false, m)
      else (true, record m { stopped_devices = put id device m.stopped_devices })
    else (false, m)

unfoldable pub initialize_all :
    (ℕ → Bool) → Bool → Map DeviceDriver → DevicesManager → List ℕ × DevicesManager
initialize_all opens open_devices [] m = ([], m)
initialize_all opens open_devices ((id, device) ∷ rest) m =
    let (ok, m₁) = initialize_device opens open_devices id device m in
    let (ids, m₂) = initialize_all opens open_devices rest m₁ in (if ok then id ∷ ids else ids, m₂)

unfoldable pub initialize_devices :
    (ℕ → Bool) → Bool → DevicesManager → DevicesManager × List StatusSignal
initialize_devices opens open_devices m =
    let (ids, m') = initialize_all opens open_devices m.detected_devices m in
    (
      record m' { detected_devices = [] },
      send_status_signal m' (if open_devices then devices_started ids else devices_stopped ids) ids,
    )

unfoldable pub start_all : (ℕ → Bool) → List ℕ → DevicesManager → DevicesManager
start_all opens [] m = m
start_all opens (id ∷ ids) m = start_all opens ids (start_device opens id m).1

unfoldable pub start_sleeping_devices : (ℕ → Bool) → DevicesManager → DevicesManager
start_sleeping_devices opens m =
    let m' = start_all opens m.sleeping_devices m in record m' { sleeping_devices = [] }

unfoldable pub stop_all : List ℕ → DevicesManager → DevicesManager
stop_all [] m = m
stop_all (id ∷ ids) m = stop_all ids (stop_device id m).1

unfoldable pub stop_initialized_devices : DevicesManager → DevicesManager
stop_initialized_devices m =
    let ids = map_keys m.started_devices in
    let m' = stop_all ids (record m { sleeping_devices = ids }) in
    record m' { started_devices = [] }

-- The loop over the drivers in `checkInitializedDevicesThreadsStatus`, and the devices to send.
unfoldable pub check_threads :
    (ℕ → Bool) → List ℕ → ℕ → DevicesManager → Option (DevicesManager × List ℕ)
check_threads threads [] id m = some (m, [])
check_threads threads (d ∷ ds) id m =
    let stopping = check_threads threads ds id (stop_device id m).1 in
    let going_on = check_threads threads ds id m in
    elim (find id m.started_devices) [
      | none ↦ none
      | some device ↦
          if device.driver_id == d && not (threads id)
          then elim stopping [ none ↦ none | some (m', ids) ↦ some (m', id ∷ ids) ]
          else going_on
    ]

unfoldable pub check_all_threads :
    (ℕ → Bool) → List ℕ → DevicesManager → Option (DevicesManager × List ℕ)
check_all_threads threads [] m = some (m, [])
check_all_threads threads (id ∷ ids) m = elim (check_threads threads m.drivers id m) [
  | none ↦ none
  | some (m₁, sent) ↦ elim (check_all_threads threads ids m₁) [
    | none ↦ none
    | some (m₂, more) ↦ some (m₂, sent ++ more)
  ]
]

unfoldable pub check_initialized_devices_threads_status :
    (ℕ → Bool) → DevicesManager → Option (DevicesManager × List StatusSignal)
check_initialized_devices_threads_status threads m =
    elim (check_all_threads threads (map_keys m.started_devices) m) [
      | none ↦ none
      | some (m', ids) ↦ some (m', send_status_signal m' (devices_stopped ids) ids)
    ]

-- The keys of a container that were not detected.
unfoldable pub not_detected : Map DeviceDriver → Map DeviceDriver → List ℕ
not_detected detected [] = []
not_detected detected ((id, device) ∷ rest) =
    if contains id detected then not_detected detected rest else id ∷ not_detected detected rest

unfoldable pub unplug_stopped : ℕ → DevicesManager → Bool × DevicesManager
unplug_stopped id m = elim (find id m.stopped_devices) [
  | none ↦ (false, m)
  | some device ↦ (true, to_unplugged id device m)
]

-- A started device is stopped first, without USB requests.
unfoldable pub unplug_started : ℕ → DevicesManager → Bool × DevicesManager
unplug_started id m =
    let (ok, m') = stop_device id m in if ok then unplug_stopped id m' else (false, m')

unfoldable pub unplug_all :
    (ℕ → DevicesManager → Bool × DevicesManager) → List ℕ → DevicesManager → List ℕ × DevicesManager
unplug_all unplug [] m = ([], m)
unplug_all unplug (id ∷ ids) m =
    let (ok, m₁) = unplug id m in
    let (sent, m₂) = unplug_all unplug ids m₁ in (if ok then id ∷ sent else sent, m₂)

unfoldable pub check_for_unplugged_devices : DevicesManager → DevicesManager × List StatusSignal
check_for_unplugged_devices m =
    let (started, m₁) =
      unplug_all unplug_started (not_detected m.detected_devices m.started_devices) m in
    let (stopped, m₂) =
      unplug_all unplug_stopped (not_detected m₁.detected_devices m₁.stopped_devices) m₁ in
    (
      record m₂ { detected_devices = [] },
      send_status_signal m₂ (devices_unplugged (started ++ stopped)) (started ++ stopped),
    )

pub data DeviceStatus : Type 0 where
  status_unknown status_started status_stopped status_unplugged : DeviceStatus

unfoldable pub get_device_status : ℕ → DevicesManager → DeviceStatus
get_device_status id m =
    if contains id m.started_devices
    then status_started
    else if contains id m.stopped_devices
    then status_stopped
    else if contains id m.unplugged_devices
    then status_unplugged
    else status_unknown

-- What the main loop and the clients call, with what udev and the drivers answer.
pub data Call : Type 0 where
  search_supported_devices : Map DeviceDriver → Call
  initialize : (ℕ → Bool) → Bool → Call
  start : (ℕ → Bool) → ℕ → Call
  stop : ℕ → Call
  start_sleeping : (ℕ → Bool) → Call
  stop_initialized : Call
  check_threads_status : (ℕ → Bool) → Call
  check_unplugged : Call

pub call : Call → DevicesManager → Option (DevicesManager × List StatusSignal)
call (search_supported_devices detected) m = some (record m { detected_devices = detected }, [])
call (initialize opens open_devices) m = some (initialize_devices opens open_devices m)
call (start opens id) m = some ((start_device opens id m).1, [])
call (stop id) m = some ((stop_device id m).1, [])
call (start_sleeping opens) m = some (start_sleeping_devices opens m, [])
call stop_initialized m = some (stop_initialized_devices m, [])
call (check_threads_status threads) m = check_initialized_devices_threads_status threads m
call check_unplugged m = some (check_for_unplugged_devices m)

pub call_all : List Call → DevicesManager → Option (DevicesManager × List StatusSignal)
call_all [] m = some (m, [])
call_all (c ∷ cs) m = elim (call c m) [
  | none ↦ none
  | some (m₁, out) ↦ elim (call_all cs m₁) [
    | none ↦ none
    | some (m₂, more) ↦ some (m₂, out ++ more)
  ]
]
