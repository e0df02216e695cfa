-- ===== src/Scenarios/Usb.antt =====
-- A keyboard behind libusb, with the interface that its driver expects or without it.
use glogi_k.Prelude.{true, false, [], ◌∷◌, ◌≡◌, refl}
use glogi_k.Libusb.{
  Libusb, UsbDevice, AltSetting, attach_kernel_driver, open_usb_device, find_usb_device_interface,
  and_then, for_each, call, each_config, try_config, try_alt_setting, take_interface,
  check_configuration, find_endpoints, is_expected_setting, push_to_release, push_to_attach,
  note_endpoints, note_endpoint, detach_kernel_driver_from_usb_device_interface,
}
use glogi_k.Libusb.Held.{claimed, detached, is_open, is_orderly}
use glogi_k.Libusb.Matches.{has_settings, any_interface, any_setting}
use glogi_k.Libusb.Opened.{Fresh, AfterOpen, open_usb_device-AfterOpen}
use glogi_k.Libusb.Found.{Ready}
use glogi_k.Libusb.Present.{find_usb_device_interface-Ready}
use glogi_k.Libusb.Missing.{SameFields, find_usb_device_interface-missed}

-- The keyboard's second interface is the one for its keys and its screen.
abbrev settings : AltSetting
settings = record {
  interface_number = 1;
  alternate_setting = 0;
  interface_class = 3;
  endpoints =
      record { endpoint_address = 129; attributes = 3 }
      ∷ record { endpoint_address = 2; attributes = 3 }
      ∷ [];
}

-- All calls succeed, but kernel drivers cannot be attached; a driver is active until it is detached.
abbrev libusb : Libusb
libusb = record {
  succeeds = λ calls c. elim c [ attach_kernel_driver n ↦ false | other ↦ true ];
  devices = λ calls. (3, 9) ∷ [];
  driver_is_active = λ calls n. true;
  configuration = λ calls. 1;
  config_descriptors = record { configuration_value = 1; interfaces = (settings ∷ []) ∷ [] } ∷ [];
}

abbrev device : UsbDevice
device = record {
  id = record {
    bus = 3;
    num = 9;
    bconfiguration_value = 1;
    binterface_number = 1;
    balternate_setting = 0;
    bnum_endpoints = 2;
  };
  to_release = [];
  to_attach = [];
  usb_requests_status = true;
  keys_endpoint = 0;
  lcd_endpoint = 0;
  calls = [];
}

-- The driver expects an interface that the keyboard does not have.
abbrev other_device : UsbDevice
other_device = record device { id = record device.id { binterface_number = 4 } }

device-Fresh : Fresh device
unfolding claimed detached is_open is_orderly
device-Fresh = record {
  status = refl;
  to_release = refl;
  to_attach = refl;
  released = record { claims = refl; detaches = refl; closed = refl; orderly = refl };
}

open_usb_device-AfterOpen_example : AfterOpen libusb (open_usb_device libusb device)
open_usb_device-AfterOpen_example = open_usb_device-AfterOpen libusb device device-Fresh

device_found : (find_usb_device_interface libusb device).1 ≡ true
unfolding find_usb_device_interface and_then for_each call each_config try_config try_alt_setting
    take_interface check_configuration find_endpoints is_expected_setting push_to_release
    push_to_attach note_endpoints note_endpoint detach_kernel_driver_from_usb_device_interface
device_found = refl

device_has_settings : has_settings device.id libusb.config_descriptors ≡ true
unfolding has_settings any_interface any_setting is_expected_setting
device_has_settings = refl

find_usb_device_interface-Ready_example :
    Ready device.id (find_usb_device_interface libusb device).0
find_usb_device_interface-Ready_example =
    find_usb_device_interface-Ready libusb device (λ calls i. refl) device_has_settings device_found

other_device_has_none : has_settings other_device.id libusb.config_descriptors ≡ false
unfolding has_settings any_interface any_setting is_expected_setting
other_device_has_none = refl

find_usb_device_interface-missed_example :
    ((find_usb_device_interface libusb other_device).1 ≡ true)
    × SameFields other_device (find_usb_device_interface libusb other_device).0
find_usb_device_interface-missed_example =
    find_usb_device_interface-missed libusb other_device other_device_has_none refl
