-- ===== src/DevicesHandler.antt =====
-- src/bin/service/devicesHandler.cpp: the devices that the service knows, started or stopped, and
-- their configuration files. A device's name is a number. The replies of the daemon and what is in
-- the file system are arguments; the calls of the daemon are effects.
pub mod Containers
pub mod FilesMap
use glogi_k.Prelude.{
  ℕ, ◌+◌, Bool, true, false, not, List, [], ◌∷◌, ◌++◌, Option, none, some, ◌==◌, ltb, if◌then◌else◌,
  Map, find, contains, erase, is_some,
}
use glogi_k.Keys.{gk_backlight_color, gk_macros_keys, gk_lcd_screen}
use glogi_k.Filesystem.{FileName, get_next_available_file_name}
use glogi_k.DeviceProperties.{
  DeviceProperties, LcdPluginProperties, new_device_properties, check_device_capability,
  set_device_id, init_device_banks, load,
}
use glogi_k.DevicesManager.{put, map_keys}

-- `_ignoredFSNotifications` is a set of devices.
pub record DevicesHandler : Type 0 where
  pub client_id : ℕ
  pub ignored_fs_notifications : List ℕ
  pub started_devices : Map DeviceProperties
  pub stopped_devices : Map DeviceProperties

-- The remote methods of the daemon that are called about a device.
pub data RemoteCall : Type 0 where
  get_device_properties get_device_lcd_plugins_properties get_device_mkeys_id_array
        get_device_gkeys_id_array delete_device_configuration :
      ℕ → RemoteCall
  set_device_backlight_color : ℕ → ℕ × ℕ × ℕ → RemoteCall
  set_device_lcd_plugins_mask : ℕ → ℕ → ℕ → RemoteCall

-- What else a call does. A notification shows the device that a reference stands for: `none` if the
-- reference is to an entry that is no more in its container.
pub data Effect : Type 0 where
  call : RemoteCall → Effect
  save_file : ℕ → FileName → DeviceProperties → Effect
  configuration_saved : ℕ → Effect
  add_watch : List ℕ → Bool → Effect
  remove_watch : Option ℕ → Effect
  show_notification : ℕ → Option DeviceProperties → Effect

-- What the daemon answers, `none` or an empty array for no reply, and what the file system holds in
-- the directory of a vendor: which names are regular files, what a file's archive gives, and the
-- descriptor of a new watch, `none` where it throws.
pub record World : Type 0 where
  pub properties : Option (List ℕ × List ℕ × List ℕ × ℕ)
  pub lcd_plugins : Option (List LcdPluginProperties)
  pub mkeys_id_array : List ℕ
  pub gkeys_id_array : List ℕ
  pub is_regular_file : List ℕ → FileName → Bool
  pub archive : List ℕ → FileName → Option DeviceProperties
  pub new_watch : List ℕ → Bool → Option ℕ

unfoldable pub config_files : Map DeviceProperties → List FileName
config_files [] = []
config_files ((id, device) ∷ devices) = device.config_file_path ∷ config_files devices

-- std::set::insert
unfoldable pub insert_in_set : ℕ → List ℕ → List ℕ
insert_in_set id [] = id ∷ []
insert_in_set id (x ∷ xs) =
    if id == x then x ∷ xs else if ltb id x then id ∷ x ∷ xs else x ∷ insert_in_set id xs

unfoldable pub remove_from_set : ℕ → List ℕ → List ℕ
remove_from_set id [] = []
remove_from_set id (x ∷ xs) = if id == x then xs else x ∷ remove_from_set id xs

unfoldable pub is_in_ids : ℕ → List ℕ → Bool
is_in_ids id [] = false
is_in_ids id (x ∷ xs) = if id == x then true else is_in_ids id xs

unfoldable pub initialize_configuration_directory :
    World → Bool → DeviceProperties → DeviceProperties × List Effect
initialize_configuration_directory w check device = elim (w.new_watch device.vendor check) [
  | none ↦ (device, add_watch device.vendor check ∷ [])
  | some wd ↦ (record device { watched_descriptor = some wd }, add_watch device.vendor check ∷ [])
]

-- The second `saveDeviceConfigurationFile`: the next notification is to be ignored.
unfoldable pub save_device_file :
    ℕ → DeviceProperties → DevicesHandler → DevicesHandler × List Effect
save_device_file id device h = (
  record h { ignored_fs_notifications = insert_in_set id h.ignored_fs_notifications },
  save_file id device.config_file_path device ∷ configuration_saved id ∷ [],
)

-- The mask's number is GK_LCD_PLUGINS_MASK_1.
unfoldable pub send_device_configuration_to_daemon : ℕ → DeviceProperties → List Effect
send_device_configuration_to_daemon id device =
    (if check_device_capability device gk_backlight_color
      then call (set_device_backlight_color id device.rgb) ∷ []
      else [])
    ++ (if check_device_capability device gk_lcd_screen
        then call (set_device_lcd_plugins_mask id 1 device.lcd_plugins_mask1) ∷ []
        else [])

-- The parts of `setDeviceProperties`: what the daemon tells of the device.
unfoldable pub ask_properties : World → DeviceProperties → DeviceProperties
ask_properties w device = elim w.properties [ none ↦ device | some p ↦ set_device_id p device ]

unfoldable pub ask_lcd_plugins : World → DeviceProperties → DeviceProperties
ask_lcd_plugins w device = elim w.lcd_plugins [
  | none ↦ device
  | some array ↦ record device { lcd_plugins_properties = array }
]

unfoldable pub is_empty_array : List ℕ → Bool
is_empty_array [] = true
is_empty_array (x ∷ xs) = false

unfoldable pub ask_daemon : World → ℕ → DeviceProperties → DeviceProperties × List Effect
ask_daemon w id device =
    let device₁ = ask_properties w device in
    let has_lcd = check_device_capability device₁ gk_lcd_screen in
    let device₂ = if has_lcd then ask_lcd_plugins w device₁ else device₁ in
    let has_macros = check_device_capability device₂ gk_macros_keys in
    let no_mkeys = is_empty_array w.mkeys_id_array in
    let device₃ =
      if has_macros
      then (if no_mkeys
          then device₂
          else init_device_banks w.mkeys_id_array w.gkeys_id_array device₂)
      else device₂ in
    (
      device₃,
      call (get_device_properties id)
          ∷ ((if has_lcd then call (get_device_lcd_plugins_properties id) ∷ [] else [])
              ++ (if has_macros
                  then call (get_device_mkeys_id_array id)
                    ∷ (if no_mkeys then [] else call (get_device_gkeys_id_array id) ∷ [])
                  else [])),
    )

-- getProduct() + " " + getName()
unfoldable pub base_name : DeviceProperties → FileName
base_name device = device.product ++ (b' ' ∷ device.name)

unfoldable pub codes_cfg : FileName
codes_cfg = b'c' ∷ b'f' ∷ b'g' ∷ []

unfoldable pub next_file : World → Bool → List FileName → DeviceProperties → Option FileName
next_file w must_exist already_used device =
    get_next_available_file_name already_used (w.is_regular_file device.vendor) (base_name device)
      codes_cfg must_exist

-- A configuration file is found: it is loaded and its values go to the daemon.
unfoldable pub use_found_file : World → ℕ → DeviceProperties → DeviceProperties × List Effect
use_found_file w id device =
    let (watched, effects) = initialize_configuration_directory w false device in
    let loaded = load (w.archive watched.vendor watched.config_file_path) watched in
    (loaded, effects ++ send_device_configuration_to_daemon id loaded)

-- None is found: a default one is saved.
unfoldable pub use_new_file :
    World
    → ℕ
    → List FileName
    → DeviceProperties
    → DevicesHandler
    → DevicesHandler × DeviceProperties × List Effect
use_new_file w id already_used device h = elim (next_file w false already_used device) [
  | none ↦ (h, device, [])
  | some file ↦
      let (watched, effects) =
        initialize_configuration_directory w false (record device { config_file_path = file }) in
      let (h', saved) = save_device_file id watched h in (h', watched, effects ++ saved)
]

unfoldable pub set_device_properties :
    World → ℕ → DeviceProperties → DevicesHandler → DevicesHandler × DeviceProperties × List Effect
set_device_properties w id device h =
    let (asked, calls) = ask_daemon w id device in
    let already_used = config_files h.started_devices ++ config_files h.stopped_devices in
    let (h', new, more) = use_new_file w id already_used asked h in
    elim (next_file w true already_used asked) [
      | none ↦ (h', new, calls ++ more)
      | some file ↦
          let (found, effects) = use_found_file w id (record asked { config_file_path = file }) in
          (h, found, calls ++ effects)
    ]
