-- ===== src/Libusb.antt =====
-- src/bin/daemon/libusb.cpp and `seekUSBDevice` of src/bin/daemon/usbinit.cpp: how a device is opened
-- and closed. The calls of libusb are written to a log, the last one first, each with whether it
-- succeeded; what libusb answers may depend on all calls before. A function that may throw returns
-- its state and whether it returned.
pub mod Held
pub mod Claims
pub mod Configuration
pub mod Taken
pub mod Opened
pub mod Matches
pub mod Found
pub mod Ready
pub mod Present
pub mod Missing
use glogi_k.Prelude.{
  ℕ, ◌+◌, Bool, true, false, not, ◌&&◌, List, [], ◌∷◌, ◌++◌, bit_and, ◌==◌, if◌then◌else◌, length,
}

pub data Call : Type 0 where
  get_device_list get_device_descriptor get_configuration open_handle close_handle : Call
  get_config_descriptor set_configuration : ℕ → Call
  kernel_driver_active detach_kernel_driver attach_kernel_driver : ℕ → Call
  claim_interface release_interface : ℕ → Call

abbrev pub Log : Type 0
Log = List (Call × Bool)

-- The descriptors of a device, in libusb's words.
pub record Endpoint : Type 0 where
  pub endpoint_address : ℕ
  pub attributes : ℕ

pub record AltSetting : Type 0 where
  pub interface_number : ℕ
  pub alternate_setting : ℕ
  pub interface_class : ℕ
  pub endpoints : List Endpoint

pub record ConfigDescriptor : Type 0 where
  pub configuration_value : ℕ
  pub interfaces : List (List AltSetting)

-- What libusb answers: whether a call succeeds, and the value that comes with it then. A device of
-- the list is its bus and its address.
pub record Libusb : Type 0 where
  pub succeeds : Log → Call → Bool
  pub devices : Log → List (ℕ × ℕ)
  pub driver_is_active : Log → ℕ → Bool
  pub configuration : Log → ℕ
  pub config_descriptors : List ConfigDescriptor

-- The fields of USBDeviceID that say what is looked for.
pub record UsbId : Type 0 where
  pub bus : ℕ
  pub num : ℕ
  pub bconfiguration_value : ℕ
  pub binterface_number : ℕ
  pub balternate_setting : ℕ
  pub bnum_endpoints : ℕ

-- The fields of USBDevice that libusb.cpp changes.
pub record UsbDevice : Type 0 where
  pub id : UsbId
  pub open id use *
  pub to_release : List ℕ
  pub to_attach : List ℕ
  pub usb_requests_status : Bool
  pub keys_endpoint : ℕ
  pub lcd_endpoint : ℕ
  pub calls : Log

-- What follows a function that may throw.
unfoldable pub and_then : UsbDevice × Bool → (UsbDevice → UsbDevice × Bool) → UsbDevice × Bool
and_then (d, true) next = next d
and_then (d, false) next = (d, false)

unfoldable pub for_each :
    {A : Type 0} → (A → UsbDevice → UsbDevice × Bool) → List A → UsbDevice → UsbDevice × Bool
for_each f [] d = (d, true)
for_each f (x ∷ xs) d = and_then (f x d) (for_each f xs)

unfoldable pub is_listed : UsbId → List (ℕ × ℕ) → Bool
is_listed id [] = false
is_listed id ((bus, num) ∷ devices) =
    if bus == id.bus && num == id.num then true else is_listed id devices

unfoldable pub push_to_attach : ℕ → UsbDevice → UsbDevice × Bool
push_to_attach n d = (record d { to_attach = d.to_attach ++ n ∷ [] }, true)

-- LIBUSB_TRANSFER_TYPE_MASK and LIBUSB_TRANSFER_TYPE_INTERRUPT are 3, LIBUSB_ENDPOINT_DIR_MASK and
-- LIBUSB_ENDPOINT_IN are 0x80.
unfoldable pub note_endpoint : Endpoint → UsbDevice → UsbDevice
note_endpoint ep d =
    if bit_and ep.attributes 3 == 3
    then (if bit_and ep.endpoint_address 128 == 128
        then (if d.keys_endpoint == 0
            then record d { keys_endpoint = bit_and ep.endpoint_address 255 }
            else d)
        else (if d.lcd_endpoint == 0
            then record d { lcd_endpoint = bit_and ep.endpoint_address 255 }
            else d))
    else d

unfoldable pub note_endpoints : List Endpoint → UsbDevice → UsbDevice
note_endpoints [] d = d
note_endpoints (ep ∷ eps) d = note_endpoints eps (note_endpoint ep d)

-- The tests for the expected settings, LIBUSB_CLASS_HID being 3.
unfoldable pub is_expected_setting : UsbId → AltSetting → Bool
is_expected_setting id alt =
    alt.interface_number == id.binterface_number
    && (alt.alternate_setting == id.balternate_setting && alt.interface_class == 3)

unfoldable pub push_to_release : ℕ → UsbDevice → UsbDevice × Bool
push_to_release n d = (record d { to_release = d.to_release ++ n ∷ [] }, true)

unfoldable pub find_endpoints : List Endpoint → UsbDevice → UsbDevice × Bool
find_endpoints eps d =
    let d₁ = note_endpoints eps d in (d₁, not (d₁.keys_endpoint == 0) && not (d₁.lcd_endpoint == 0))

module _ (u : Libusb) where
  unfoldable pub call : Call → UsbDevice → UsbDevice × Bool
  call c d = let ok = u.succeeds d.calls c in (record d { calls = (c, ok) ∷ d.calls }, ok)

  unfoldable pub seek_usb_device : UsbDevice → UsbDevice × Bool
  seek_usb_device d =
      and_then (call get_device_list d) (λ d₁. (d₁, is_listed d.id (u.devices d.calls)))

  unfoldable pub detach_kernel_driver_from_usb_device_interface : ℕ → UsbDevice → UsbDevice × Bool
  detach_kernel_driver_from_usb_device_interface n d =
      and_then (call (kernel_driver_active n) d) (λ d₁.
        if u.driver_is_active d.calls n
        then and_then (call (detach_kernel_driver n) d₁) (push_to_attach n)
        else (d₁, true))

  -- The loops that go on when a call fails.
  unfoldable pub attach_all : List ℕ → UsbDevice → UsbDevice
  attach_all [] d = d
  attach_all (n ∷ ns) d = attach_all ns (call (attach_kernel_driver n) d).0

  unfoldable pub release_all : List ℕ → UsbDevice → UsbDevice
  release_all [] d = d
  release_all (n ∷ ns) d = release_all ns (call (release_interface n) d).0

  unfoldable pub attach_usb_device_interfaces_to_kernel_drivers : UsbDevice → UsbDevice
  attach_usb_device_interfaces_to_kernel_drivers d = record (attach_all d.to_attach d) {
    to_attach = [];
  }

  unfoldable pub release_usb_device_interfaces : UsbDevice → UsbDevice
  release_usb_device_interfaces d =
      attach_usb_device_interfaces_to_kernel_drivers
        (record (release_all d.to_release d) { to_release = [] })

  unfoldable pub detach_alt_setting : AltSetting → UsbDevice → UsbDevice × Bool
  detach_alt_setting alt d = detach_kernel_driver_from_usb_device_interface alt.interface_number d

  -- The loop over the configurations of both functions below; `i` is the index of the first.
  unfoldable pub each_config :
      (ConfigDescriptor → UsbDevice → UsbDevice × Bool)
      → ℕ
      → List ConfigDescriptor
      → UsbDevice
      → UsbDevice × Bool
  each_config body i [] d = (d, true)
  each_config body i (config ∷ configs) d =
      let (d₁, ok) = call (get_config_descriptor i) d in
      and_then (if ok then body config d₁ else (d₁, true)) (each_config body (i + 1) configs)

  unfoldable pub detach_config : ConfigDescriptor → UsbDevice → UsbDevice × Bool
  detach_config config d = for_each (for_each detach_alt_setting) config.interfaces d

  unfoldable pub change_configuration : UsbDevice → UsbDevice × Bool
  change_configuration d = and_then (call get_device_descriptor d) (λ d₁.
      and_then (each_config detach_config 0 u.config_descriptors d₁) (λ d₂.
        and_then (call (set_configuration d.bconfiguration_value) d₂)
          (λ d₃. (attach_usb_device_interfaces_to_kernel_drivers d₃, true))))

  unfoldable pub set_usb_device_active_configuration : UsbDevice → UsbDevice × Bool
  set_usb_device_active_configuration d = and_then (call get_configuration d) (λ d₁.
      if u.configuration d.calls == d.bconfiguration_value
      then (d₁, true)
      else change_configuration d₁)

  unfoldable pub check_configuration : UsbDevice → UsbDevice × Bool
  check_configuration d =
      and_then (call get_configuration d)
        (λ d₁. (d₁, u.configuration d.calls == d.bconfiguration_value))

  unfoldable pub take_interface : AltSetting → UsbDevice → UsbDevice × Bool
  take_interface alt d =
      and_then (detach_kernel_driver_from_usb_device_interface alt.interface_number d) (λ d₁.
        and_then (call (claim_interface alt.interface_number) d₁) (λ d₂.
          and_then (push_to_release alt.interface_number d₂)
            (λ d₃. and_then (check_configuration d₃) (find_endpoints alt.endpoints))))

  unfoldable pub try_alt_setting : AltSetting → UsbDevice → UsbDevice × Bool
  try_alt_setting alt d =
      if is_expected_setting d.id alt
      then (if length alt.endpoints == d.bnum_endpoints then take_interface alt d else (d, false))
      else (d, true)

  unfoldable pub try_config : ConfigDescriptor → UsbDevice → UsbDevice × Bool
  try_config config d =
      if config.configuration_value == d.bconfiguration_value
      then for_each (for_each try_alt_setting) config.interfaces d
      else (d, true)

  unfoldable pub find_usb_device_interface : UsbDevice → UsbDevice × Bool
  find_usb_device_interface d =
      and_then (call get_device_descriptor d) (each_config try_config 0 u.config_descriptors)

  unfoldable pub close_usb_device : UsbDevice → UsbDevice
  close_usb_device d =
      (call close_handle (if d.usb_requests_status then release_usb_device_interfaces d else d)).0

  unfoldable pub close_on_failure : UsbDevice × Bool → UsbDevice × Bool
  close_on_failure (d, true) = (d, true)
  close_on_failure (d, false) = (close_usb_device d, false)

  unfoldable pub open_usb_device : UsbDevice → UsbDevice × Bool
  open_usb_device d = and_then (seek_usb_device d) (λ d₁. and_then (call open_handle d₁) (λ d₂.
      close_on_failure
        (and_then (set_usb_device_active_configuration d₂) find_usb_device_interface)))
