-- ===== src/DevicesHandler/Containers/FreshFiles.antt =====
-- The configuration file that a new device gets is not used by another.
use glogi_k.Prelude.{
  ℕ, Bool, true, false, List, ◌++◌, Option, none, some, ◌≡◌, refl, arith, Option-cases, inl, inr,
  ◌∙◌,
}
use glogi_k.Filesystem.{FileName, is_in_set}
use glogi_k.Filesystem.Names.{get_next_available_file_name-unused}
use glogi_k.DeviceProperties.{
  DeviceProperties, codes_none, new_device_properties, set_device_id, set_properties,
  init_device_banks, load,
}
use glogi_k.DevicesHandler.{
  DevicesHandler, World, initialize_configuration_directory, config_files, ask_properties,
  ask_lcd_plugins, ask_daemon, next_file, use_found_file, use_new_file, save_device_file,
  set_device_properties,
}
use glogi_k.DevicesHandler.Containers.Files.{already_used, Unused}

ask_daemon-file :
    (w : World) (id : ℕ) (device : DeviceProperties)
    → (ask_daemon w id device).0.config_file_path ≡ device.config_file_path
unfolding ask_daemon ask_properties ask_lcd_plugins set_device_id init_device_banks
ask_daemon-file w id device = ground arith

pub load-file :
    (archive : Option DeviceProperties) (device : DeviceProperties)
    → (load archive device).config_file_path ≡ device.config_file_path
unfolding load set_properties
load-file none device = refl
load-file (some dev) device = refl

pub watched-file :
    (w : World) (check : Bool) (device : DeviceProperties)
    → (initialize_configuration_directory w check device).0.config_file_path
      ≡ device.config_file_path
unfolding initialize_configuration_directory
watched-file w check device = ground arith

use_found_file-file :
    (w : World) (id : ℕ) (device : DeviceProperties)
    → (use_found_file w id device).0.config_file_path ≡ device.config_file_path
unfolding use_found_file
use_found_file-file w id device =
    let watched = (initialize_configuration_directory w false device).0 in
    load-file (w.archive watched.vendor watched.config_file_path) watched
    ∙ watched-file w false device

next_file-unused :
    (w : World) (must_exist : Bool) (used : List FileName) (device : DeviceProperties)
    {name : FileName}
    → next_file w must_exist used device ≡ some name
    → is_in_set name used ≡ false
unfolding next_file
next_file-unused w must_exist used device e =
    (get_next_available_file_name-unused used _ _ _ must_exist e).0

new_device-file : new_device_properties.config_file_path ≡ codes_none
unfolding new_device_properties
new_device-file = refl

pub set_device_properties-Unused :
    (w : World) (id : ℕ) (h : DevicesHandler)
    → Unused h (set_device_properties w id new_device_properties h).1
unfolding set_device_properties use_new_file save_device_file already_used
set_device_properties-Unused w id h =
    let used = config_files h.started_devices ++ config_files h.stopped_devices in
    let asked = (ask_daemon w id new_device_properties).0 in
    elim (Option-cases (next_file w true used asked)) [
      | inr (file, e) ↦
          let found = record asked { config_file_path = file } in
          inr (
            rw (e, set_device_properties)
              (rw (use_found_file-file w id found) (next_file-unused w true used asked e)))
      | inl e ↦ elim (Option-cases (next_file w false used asked)) [
        | inr (file, e₂) ↦
            let new = record asked { config_file_path = file } in
            inr (
              rw (e, set_device_properties)
                (rw (e₂, use_new_file)
                  (rw (watched-file w false new) (next_file-unused w false used asked e₂))))
        | inl e₂ ↦ inl (
            rw (e, set_device_properties)
              (rw (e₂, use_new_file)
                (ask_daemon-file w id new_device_properties ∙ new_device-file)))
      ]
    ]
