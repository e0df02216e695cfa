-- ===== src/DeviceProperties.antt =====
-- src/lib/shared/deviceProperties.cpp, src/include/DeviceID.hpp, and the loading of
-- src/lib/shared/deviceConfigurationFile.cpp: what the service knows of one device. Strings are lists
-- of character codes.
use glogi_k.Prelude.{ℕ, ◌==◌, ◌∷◌, Bool, bit_or, List, [], Option, none, some, if◌then◌else◌}
use glogi_k.Types.{mkey_m0}
use glogi_k.Banks.{Banks, check_banks_keys, init_banks}
use glogi_k.Prelude.Bits.{has}
use glogi_k.Keys.{gk_lcd_splashscreen, gk_lcd_system_monitor}
use glogi_k.Filesystem.{FileName}

pub record LcdPluginProperties : Type 0 where
  pub id : ℕ
  pub name : List ℕ
  pub desc : List ℕ

-- `watched_descriptor` is `none` where the source has -1.
pub record DeviceProperties : Type 0 where
  pub vendor : List ℕ
  pub product : List ℕ
  pub name : List ℕ
  pub config_file_path : FileName
  pub capabilities : ℕ
  pub rgb : ℕ × ℕ × ℕ
  pub lcd_plugins_mask1 : ℕ
  pub lcd_plugins_properties : List LcdPluginProperties
  pub banks : Banks
  pub watched_descriptor : Option ℕ

unfoldable pub codes_unknown : List ℕ
codes_unknown = b'u' ∷ b'n' ∷ b'k' ∷ b'n' ∷ b'o' ∷ b'w' ∷ b'n' ∷ []

unfoldable pub codes_none : FileName
codes_none = b'n' ∷ b'o' ∷ b'n' ∷ b'e' ∷ []

-- The constructors of `DeviceProperties` and its bases.
unfoldable pub new_device_properties : DeviceProperties
unfolding codes_unknown codes_none
new_device_properties = record {
  vendor = codes_unknown;
  product = codes_unknown;
  name = codes_unknown;
  config_file_path = codes_none;
  capabilities = 0;
  rgb = (255, 255, 255);
  lcd_plugins_mask1 = 0;
  lcd_plugins_properties = [];
  banks = record { gkeys_banks = []; current_bank_id = mkey_m0 };
  watched_descriptor = none;
}

-- getCapabilities() & toEnumType(toCheck)
abbrev pub check_device_capability : DeviceProperties → ℕ → Bool
check_device_capability device to_check = has device.capabilities to_check

-- The first `setProperties`, of what the daemon tells.
unfoldable pub set_device_id : List ℕ × List ℕ × List ℕ × ℕ → DeviceProperties → DeviceProperties
set_device_id (vendor, product, name, caps) device = record device {
  vendor = vendor;
  product = product;
  name = name;
  capabilities = caps;
}

-- The second `setProperties`, of what a configuration file holds.
unfoldable pub set_properties : DeviceProperties → DeviceProperties → DeviceProperties
set_properties dev device = record device {
  rgb = dev.rgb;
  banks = record device.banks { gkeys_banks = dev.banks.gkeys_banks };
  lcd_plugins_mask1 =
      if dev.lcd_plugins_mask1 == 0
      then bit_or (bit_or dev.lcd_plugins_mask1 gk_lcd_splashscreen) gk_lcd_system_monitor
      else dev.lcd_plugins_mask1;
}

-- `load`, on what the archive gives; `none` is a failure to open or to read it.
unfoldable pub load : Option DeviceProperties → DeviceProperties → DeviceProperties
load archive device =
    let loaded : DeviceProperties = elim archive [
      | none ↦ device
      | some dev ↦ set_properties dev device
    ] in
    record loaded {
      banks = record loaded.banks { gkeys_banks = check_banks_keys loaded.banks.gkeys_banks };
    }

unfoldable pub init_device_banks : List ℕ → List ℕ → DeviceProperties → DeviceProperties
init_device_banks mkeys gkeys device = record device {
  banks = record device.banks { gkeys_banks = init_banks mkeys gkeys device.banks.gkeys_banks };
}
