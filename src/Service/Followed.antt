-- ===== src/Service/Followed.antt =====
-- The devices handler of the service behind the handlers of the signals: every device that it starts
-- for a G510 has the banks that the signals need.
use glogi_k.Prelude.{
  ℕ, ◌≤◌, Bool, true, false, List, [], ◌++◌, Option, none, some, ◌≡◌, arith, if◌then◌else◌,
  Option-cases, inl, inr, sym, subst, ap, ◌∙◌,
}
use glogi_k.Prelude.Bits.{has}
use glogi_k.Types.{mkeyid_max}
use glogi_k.Keys.{gk_macros_keys, gk_lcd_screen}
use glogi_k.LogitechG510.{get_mkeys_id_array, get_gkeys_id_array}
use glogi_k.Banks.{Banks, init_banks, is_bank_id, is_gkey_id, check_banks_keys}
use glogi_k.Banks.Full.{check_banks_keys-kept}
use glogi_k.KeyboardDriver.Listen.Total.{IsGKey}
use glogi_k.DeviceProperties.{
  DeviceProperties, new_device_properties, check_device_capability, set_device_id, set_properties,
  load, init_device_banks,
}
use glogi_k.DevicesHandler.{
  DevicesHandler, World, initialize_configuration_directory, ask_properties, ask_lcd_plugins,
  is_empty_array, ask_daemon, use_found_file, use_new_file, next_file, config_files,
  save_device_file, set_device_properties,
}
use glogi_k.DevicesHandler.Containers.{reload}
use glogi_k.DevicesHandler.Containers.Uniform.{Keeps}
use glogi_k.Service.Accepts.{Full}
use glogi_k.Service.Initial.{initial_banks, init_banks-Full, mkeys_named}

-- The banks of a device have what the signals need.
abbrev pub FullDevice : DeviceProperties → Type 0
FullDevice device = Full device.banks

-- An archive is of a device with such banks, as the service saves it; `none` is none.
unfoldable pub IsFullArchive : Option DeviceProperties → Type 0
IsFullArchive none = Unit
IsFullArchive (some device) = FullDevice device

-- The daemon tells of a G510, with its macro keys.
pub record TellsG510 (w : World) : Type 0 where
  pub vendor : List ℕ
  pub product : List ℕ
  pub name : List ℕ
  pub caps : ℕ
  pub properties : w.properties ≡ some (vendor, product, name, caps)
  pub macros : has caps gk_macros_keys ≡ true
  pub mkeys : w.mkeys_id_array ≡ get_mkeys_id_array
  pub gkeys : w.gkeys_id_array ≡ get_gkeys_id_array
  pub archives : (vendor file : List ℕ) → IsFullArchive (w.archive vendor file)

bank_id_known : (b : ℕ) → b ≤ mkeyid_max → is_bank_id b ≡ true
unfolding is_bank_id
bank_id_known b le = ground arith

gkey_id_known : (k : ℕ) → IsGKey k → is_gkey_id k ≡ true
unfolding is_gkey_id
gkey_id_known k known = ground arith

check_banks_keys-Full :
    (banks : Banks)
    → Full banks
    → Full (record banks { gkeys_banks = check_banks_keys banks.gkeys_banks })
check_banks_keys-Full banks f = record {
  has_event = λ b k le known.
      let (e, found) = f.has_event b k le known in
      (
        e,
        ground (
          arith,
          found,
          check_banks_keys-kept banks.gkeys_banks b k,
          bank_id_known b le,
          gkey_id_known k known,
        ),
      );
  current = f.current;
}

load-FullDevice :
    (archive : Option DeviceProperties) (device : DeviceProperties)
    → IsFullArchive archive
    → FullDevice device
    → FullDevice (load archive device)
unfolding load IsFullArchive set_properties
load-FullDevice none device a f = check_banks_keys-Full device.banks f
load-FullDevice (some dev) device a f =
    check_banks_keys-Full (record device.banks { gkeys_banks = dev.banks.gkeys_banks })
      (record { has_event = a.has_event; current = f.current })

watched-banks :
    (w : World) (check : Bool) (device : DeviceProperties)
    → (initialize_configuration_directory w check device).0.banks ≡ device.banks
unfolding initialize_configuration_directory
watched-banks w check device = ground arith

-- The end of `ask_daemon`, for a device that was told its capabilities and that has no banks yet.
made-Full :
    (caps : ℕ) (mkeys gkeys : List ℕ) (device : DeviceProperties)
    → device.capabilities ≡ caps
    → has caps gk_macros_keys ≡ true
    → device.banks ≡ new_device_properties.banks
    → mkeys ≡ get_mkeys_id_array
    → gkeys ≡ get_gkeys_id_array
    → FullDevice (
        if check_device_capability device gk_macros_keys
        then (if is_empty_array mkeys then device else init_device_banks mkeys gkeys device)
        else device)
unfolding init_device_banks new_device_properties is_empty_array
made-Full caps mkeys gkeys device c m b em eg =
    let made = init_device_banks mkeys gkeys device in
    let inner = if is_empty_array mkeys then device else made in
    let macros : check_device_capability device gk_macros_keys ≡ true =
      ap (λ x. has x gk_macros_keys) c ∙ m in
    let some_mkeys : is_empty_array mkeys ≡ false =
      ap is_empty_array em ∙ ap is_empty_array mkeys_named in
    let first : (if check_device_capability device gk_macros_keys then inner else device) ≡ made =
      ap (λ x. if x then inner else device) macros
      ∙ ap (λ x. if x then device else made) some_mkeys in
    let banks : made.banks ≡ initial_banks =
      ap (λ (x : Banks). record x { gkeys_banks = init_banks mkeys gkeys x.gkeys_banks }) b
      ∙ ap (λ (x : List ℕ). record initial_banks { gkeys_banks = init_banks x gkeys [] }) em
      ∙ ap
          (λ (x : List ℕ). record initial_banks {
            gkeys_banks = init_banks get_mkeys_id_array x [];
          })
          eg in
    subst FullDevice (sym first) (subst Full (sym banks) init_banks-Full)

module _ (w : World) (t : TellsG510 w) where
  asked_capabilities :
      (let asked = ask_properties w new_device_properties in
        if check_device_capability asked gk_lcd_screen
        then ask_lcd_plugins w asked
        else asked).capabilities
      ≡ t.caps
  unfolding ask_properties ask_lcd_plugins set_device_id
  asked_capabilities = ground (arith, t.properties)

  asked_banks :
      (let asked = ask_properties w new_device_properties in
        if check_device_capability asked gk_lcd_screen
        then ask_lcd_plugins w asked
        else asked).banks
      ≡ new_device_properties.banks
  unfolding ask_properties ask_lcd_plugins set_device_id
  asked_banks = ground (arith, t.properties)

  ask_daemon-FullDevice : (id : ℕ) → FullDevice (ask_daemon w id new_device_properties).0
  unfolding ask_daemon
  ask_daemon-FullDevice id =
      let asked = ask_properties w new_device_properties in
      let device =
        if check_device_capability asked gk_lcd_screen then ask_lcd_plugins w asked else asked in
      made-Full t.caps w.mkeys_id_array w.gkeys_id_array device (asked_capabilities) t.macros
        asked_banks t.mkeys t.gkeys

  use_found_file-FullDevice :
      (id : ℕ) (device : DeviceProperties)
      → FullDevice device
      → FullDevice (use_found_file w id device).0
  unfolding use_found_file
  use_found_file-FullDevice id device f =
      let watched = (initialize_configuration_directory w false device).0 in
      load-FullDevice (w.archive watched.vendor watched.config_file_path) watched
        (t.archives watched.vendor watched.config_file_path)
        (subst Full (sym (watched-banks w false device)) f)

  use_new_file-FullDevice :
      (id : ℕ) (used : List (List ℕ)) (device : DeviceProperties) (h : DevicesHandler)
      → FullDevice device
      → FullDevice (use_new_file w id used device h).1
  unfolding use_new_file save_device_file
  use_new_file-FullDevice id used device h f = elim (Option-cases (next_file w false used device)) [
    | inl e ↦ rw (e, use_new_file) f
    | inr (file, e) ↦
        rw (e, use_new_file)
          (subst Full (sym (watched-banks w false (record device { config_file_path = file }))) f)
  ]

  pub g510-Keeps : Keeps FullDevice w
  unfolding set_device_properties reload
  g510-Keeps = record {
    made = λ id h.
        let asked = (ask_daemon w id new_device_properties).0 in
        let used = config_files h.started_devices ++ config_files h.stopped_devices in
        elim (Option-cases (next_file w true used asked)) [
          | inl e ↦
              rw (e, set_device_properties)
                (use_new_file-FullDevice id used asked h (ask_daemon-FullDevice id))
          | inr (file, e) ↦
              rw (e, set_device_properties)
                (use_found_file-FullDevice id (record asked { config_file_path = file })
                  (ask_daemon-FullDevice id))
        ];
    watched = λ check device f. subst Full (sym (watched-banks w check device)) f;
    reloaded = λ device f.
        load-FullDevice (w.archive device.vendor device.config_file_path) device
          (t.archives device.vendor device.config_file_path) f;
  }
