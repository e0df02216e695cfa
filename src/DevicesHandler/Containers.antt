-- ===== src/DevicesHandler/Containers.antt =====
-- src/bin/service/devicesHandler.cpp: how a device moves between the containers.
pub mod Status
pub mod Moves
pub mod Refines
pub mod Files
pub mod FreshFiles
pub mod KeptFiles
pub mod DistinctFiles
pub mod Notified
pub mod Uniform
pub mod EachDevice
use glogi_k.Prelude.{
  ℕ, Bool, true, false, List, [], ◌∷◌, ◌++◌, Option, none, some, ◌==◌, if◌then◌else◌, Map, find,
  contains, assign, erase, is_some,
}
use glogi_k.DeviceProperties.{DeviceProperties, new_device_properties, load}
use glogi_k.DevicesManager.{put, map_keys}
use glogi_k.DevicesHandler.{
  DevicesHandler, World, Effect, call, configuration_saved, remove_watch, show_notification,
  delete_device_configuration, insert_in_set, remove_from_set, is_in_ids,
  initialize_configuration_directory, save_device_file, send_device_configuration_to_daemon,
  set_device_properties,
}

unfoldable pub put_started : ℕ → DeviceProperties → DevicesHandler → DevicesHandler
put_started id device h = record h { started_devices = put id device h.started_devices }

unfoldable pub to_started : ℕ → DeviceProperties → DevicesHandler → DevicesHandler
to_started id device h = record h {
  started_devices = put id device h.started_devices;
  stopped_devices = erase id h.stopped_devices;
}

unfoldable pub to_stopped : ℕ → DeviceProperties → DevicesHandler → DevicesHandler
to_stopped id device h = record h {
  stopped_devices = put id device h.stopped_devices;
  started_devices = erase id h.started_devices;
}

-- The notification reads its device through a reference into the container that is named.
unfoldable pub notify : Bool → ℕ → Map DeviceProperties → List Effect
notify notifications id container =
    if notifications then show_notification id (find id container) ∷ [] else []

-- A device that is in no container: its properties are asked for, and the reference is to a local.
unfoldable pub initialize_and_start :
    World → Bool → ℕ → DevicesHandler → DevicesHandler × List Effect
initialize_and_start w notifications id h =
    let (h', device, effects) = set_device_properties w id new_device_properties h in
    (
      put_started id device h',
      effects ++ (if notifications then show_notification id (some device) ∷ [] else []),
    )

unfoldable pub start_device : World → Bool → ℕ → DevicesHandler → DevicesHandler × List Effect
start_device w notifications id h =
    let initialized = initialize_and_start w notifications id h in
    if contains id h.started_devices then (h, []) else elim (find id h.stopped_devices) [
      | some device ↦
          let h' = to_started id device h in (h', notify notifications id h'.stopped_devices)
      | none ↦ initialized
    ]

-- The two branches of `stopDevice` that find the device in the container of started ones.
unfoldable pub stop_started : Bool → ℕ → DevicesHandler → DevicesHandler × List Effect
stop_started notifications id h = elim (find id h.started_devices) [
  | none ↦ (h, [])
  | some device ↦
      let h' = to_stopped id device h in (h', notify notifications id h'.started_devices)
]

unfoldable pub stop_device : World → Bool → ℕ → DevicesHandler → DevicesHandler × List Effect
stop_device w notifications id h =
    let (h₁, effects) = start_device w false id h in
    let (h₂, more) = stop_started notifications id h₁ in
    if contains id h.stopped_devices
    then (h, [])
    else if contains id h.started_devices
    then stop_started notifications id h
    else (h₂, effects ++ more)

unfoldable pub unref_device : ℕ → DevicesHandler → DevicesHandler × List Effect
unref_device id h = elim (find id h.stopped_devices) [
  | none ↦ (h, [])
  | some device ↦ (
    record h { stopped_devices = erase id h.stopped_devices },
    remove_watch device.watched_descriptor ∷ call (delete_device_configuration id) ∷ [],
  )
]

unfoldable pub unplug_device : World → Bool → ℕ → DevicesHandler → DevicesHandler × List Effect
unplug_device w notifications id h =
    let (h₁, effects) = stop_device w notifications id h in
    let (h₂, more) = unref_device id h₁ in
    if contains id h.stopped_devices then unref_device id h else (h₂, effects ++ more)

unfoldable pub set_of_ids : List ℕ → List ℕ → List ℕ
set_of_ids [] set = set
set_of_ids (id ∷ ids) set = set_of_ids ids (insert_in_set id set)

unfoldable pub unplug_all : World → Bool → List ℕ → DevicesHandler → DevicesHandler × List Effect
unplug_all w notifications [] h = (h, [])
unplug_all w notifications (id ∷ ids) h =
    let (h₁, effects) = unplug_device w notifications id h in
    let (h₂, more) = unplug_all w notifications ids h₁ in (h₂, effects ++ more)

unfoldable pub clear_devices : World → Bool → DevicesHandler → DevicesHandler × List Effect
clear_devices w notifications h =
    let ids =
      set_of_ids (map_keys h.stopped_devices) (set_of_ids (map_keys h.started_devices) []) in
    let (h', effects) = unplug_all w notifications ids h in
    (record h' { started_devices = []; stopped_devices = [] }, effects)

unfoldable pub set_client_id : ℕ → DevicesHandler → DevicesHandler
set_client_id id h = record h { client_id = id }

-- The first `saveDeviceConfigurationFile`.
unfoldable pub save_device_configuration_file :
    World → ℕ → DevicesHandler → DevicesHandler × List Effect
save_device_configuration_file w id h = elim (find id h.started_devices) [
  | none ↦ (h, [])
  | some device ↦
      let (watched, effects) = initialize_configuration_directory w true device in
      let (h', more) =
        save_device_file id watched
          (record h { started_devices = assign id watched h.started_devices }) in
      (h', effects ++ more)
]

unfoldable pub reload : World → DeviceProperties → DeviceProperties
reload w device = load (w.archive device.vendor device.config_file_path) device

unfoldable pub reload_effects : ℕ → DeviceProperties → List Effect
reload_effects id device =
    send_device_configuration_to_daemon id device ++ configuration_saved id ∷ []

unfoldable pub reload_device_configuration_file :
    World → ℕ → DevicesHandler → DevicesHandler × List Effect
reload_device_configuration_file w id h =
    let reloaded : DevicesHandler × List Effect = elim (find id h.started_devices) [
      | some device ↦ (
        record h { started_devices = assign id (reload w device) h.started_devices },
        reload_effects id (reload w device),
      )
      | none ↦ elim (find id h.stopped_devices) [
        | some device ↦ (
          record h { stopped_devices = assign id (reload w device) h.stopped_devices },
          reload_effects id (reload w device),
        )
        | none ↦ (h, [])
      ]
    ] in
    if is_in_ids id h.ignored_fs_notifications
    then (record h { ignored_fs_notifications = remove_from_set id h.ignored_fs_notifications }, [])
    else reloaded

-- What the DBus handler asks of the devices handler, each with what the world answers then.
pub data Request : Type 0 where
  start stop unplug : World → Bool → ℕ → Request
  clear : World → Bool → Request
  save reload_file : World → ℕ → Request

unfoldable pub handle : Request → DevicesHandler → DevicesHandler × List Effect
handle (start w notifications id) h = start_device w notifications id h
handle (stop w notifications id) h = stop_device w notifications id h
handle (unplug w notifications id) h = unplug_device w notifications id h
handle (clear w notifications) h = clear_devices w notifications h
handle (save w id) h = save_device_configuration_file w id h
handle (reload_file w id) h = reload_device_configuration_file w id h

unfoldable pub handle_all : List Request → DevicesHandler → DevicesHandler
handle_all [] h = h
handle_all (r ∷ rs) h = handle_all rs (handle r h).0
