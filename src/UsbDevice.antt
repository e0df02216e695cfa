-- ===== src/UsbDevice.antt =====
-- src/bin/daemon/USBDevice.hpp: the state of one keyboard that the listening thread works on, and
-- what the driver sends: feature reports to the keyboard and broadcast signals to the clients.
use Prim.Native.String.{String}
use glogi_k.Prelude.{ℕ, Bool, List}
use glogi_k.Types.{Macro}

-- The constants of src/bin/daemon/USBDeviceID.hpp that the driver reads.
pub record DeviceId : Type 0 where
  pub capabilities : ℕ
  pub keys_interrupt_buffer_max_length : ℕ
  pub gkeys_transfer_length : ℕ
  pub media_keys_transfer_length : ℕ
  pub lcd_keys_transfer_length : ℕ

pub record Device : Type 0 where
  pub id : DeviceId
  pub open id use *
  pub media_key : String
  pub lcd_key : String
  pub new_macro : Macro
  pub pressed_rkeys_mask : ℕ
  pub lcd_plugins_mask1 : ℕ
  pub mx_keys_leds_mask : ℕ
  pub exit_macro_record_mode : Bool
  pub threads_status : Bool
  pub last_keys_interrupt_transfer_length : ℕ
  pub rgb : ℕ × ℕ × ℕ
  pub fatal_errors : ℕ
  pub pressed_keys : List ℕ
  pub previous_pressed_keys : List ℕ
  pub gkey_id : ℕ

-- The broadcast signals, without the device they are about.
pub data Output : Type 0 where
  feature_report : List ℕ → Output
  device_mbank_switch : ℕ → Output
  device_macro_recorded : ℕ → Macro → Output
  device_macro_cleared : ℕ → Output
  device_gkey_event : ℕ → Output
  device_media_event : String → Output

pub data KeyStatus : Type 0 where
  key_processed key_timedout key_skipped key_unknown : KeyStatus
