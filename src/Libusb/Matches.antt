-- ===== src/Libusb/Matches.antt =====
-- When findUSBDeviceInterface returns: with the expected interface, or without any.
use glogi_k.Prelude.{
  ℕ, Bool, true, false, ◌&&◌, ◌||◌, List, [], ◌∷◌, ◌≡◌, refl, ◌==◌, if◌then◌else◌, if-holds, length,
}
use glogi_k.Libusb.{
  Call, release_interface, Libusb, UsbId, UsbDevice, Endpoint, AltSetting, ConfigDescriptor,
  get_configuration, kernel_driver_active, detach_kernel_driver, claim_interface, and_then, call,
  push_to_attach, detach_kernel_driver_from_usb_device_interface, note_endpoint, note_endpoints,
  is_expected_setting, push_to_release, check_configuration, find_endpoints, take_interface,
  try_alt_setting,
}
use glogi_k.Libusb.Claims.{and_then-keeps}

-- Whether the descriptors have the settings that the device is opened for.
unfoldable pub any_setting : UsbId → List AltSetting → Bool
any_setting id [] = false
any_setting id (alt ∷ alts) = is_expected_setting id alt || any_setting id alts

unfoldable pub any_interface : UsbId → List (List AltSetting) → Bool
any_interface id [] = false
any_interface id (alts ∷ interfaces) = any_setting id alts || any_interface id interfaces

unfoldable pub has_settings : UsbId → List ConfigDescriptor → Bool
has_settings id [] = false
has_settings id (config ∷ configs) =
    config.configuration_value == id.bconfiguration_value && any_interface id config.interfaces
    || has_settings id configs

abbrev pub gives_back : Call → Bool
gives_back c = elim c [ release_interface n ↦ true | other ↦ false ]

-- What only adds to a device keeps the predicate: no interface is released.
pub record Kept (u : Libusb) (P : UsbDevice → Type 0) : Type 0 where
  pub calls : (c : Call) (d : UsbDevice) → gives_back c ≡ false → P d → P (call u c d).0
  pub attach : (n : ℕ) (d : UsbDevice) → P d → P (push_to_attach n d).0
  pub release : (n : ℕ) (d : UsbDevice) → P d → P (push_to_release n d).0
  pub endpoint : (ep : Endpoint) (d : UsbDevice) → P d → P (note_endpoint ep d)

module _ (u : Libusb) (P : UsbDevice → Type 0) (k : Kept u P) where
  pub detach-keeps :
      (n : ℕ) (d : UsbDevice) → P d → P (detach_kernel_driver_from_usb_device_interface u n d).0
  unfolding detach_kernel_driver_from_usb_device_interface
  detach-keeps n d p =
      and_then-keeps P (call u (kernel_driver_active n) d)
        (λ d₁.
          if u.driver_is_active d.calls n
          then and_then (call u (detach_kernel_driver n) d₁) (push_to_attach n)
          else (d₁, true))
        (k.calls (kernel_driver_active n) d refl p)
        (λ d₁ p₁.
          if-holds (λ r. P r.0) (u.driver_is_active d.calls n)
            (and_then (call u (detach_kernel_driver n) d₁) (push_to_attach n)) (d₁, true)
            (λ _.
              and_then-keeps P (call u (detach_kernel_driver n) d₁) (push_to_attach n)
                (k.calls (detach_kernel_driver n) d₁ refl p₁) (k.attach n))
            (λ _. p₁))

  pub note_endpoints-keeps : (eps : List Endpoint) (d : UsbDevice) → P d → P (note_endpoints eps d)
  unfolding note_endpoints
  note_endpoints-keeps [] d p = p
  note_endpoints-keeps (ep ∷ eps) d p =
      note_endpoints-keeps eps (note_endpoint ep d) (k.endpoint ep d p)

  pub check_configuration-keeps : (d : UsbDevice) → P d → P (check_configuration u d).0
  unfolding check_configuration
  check_configuration-keeps d p =
      and_then-keeps P (call u get_configuration d)
        (λ d₁. (d₁, u.configuration d.calls == d.bconfiguration_value))
        (k.calls get_configuration d refl p) (λ d₁ p₁. p₁)

  pub take_interface-keeps : (alt : AltSetting) (d : UsbDevice) → P d → P (take_interface u alt d).0
  unfolding take_interface find_endpoints
  take_interface-keeps alt d p =
      let n = alt.interface_number in
      let last : UsbDevice → UsbDevice × Bool =
        λ d₃. and_then (check_configuration u d₃) (find_endpoints alt.endpoints) in
      let push : UsbDevice → UsbDevice × Bool = λ d₂. and_then (push_to_release n d₂) last in
      and_then-keeps P (detach_kernel_driver_from_usb_device_interface u n d)
        (λ d₁. and_then (call u (claim_interface n) d₁) push) (detach-keeps n d p)
        (λ d₁ p₁.
          and_then-keeps P (call u (claim_interface n) d₁) push
            (k.calls (claim_interface n) d₁ refl p₁)
            (λ d₂ p₂. and_then-keeps P (push_to_release n d₂) last (k.release n d₂ p₂) (λ d₃ p₃.
              and_then-keeps P (check_configuration u d₃) (find_endpoints alt.endpoints)
                (check_configuration-keeps d₃ p₃) (note_endpoints-keeps alt.endpoints))))

  pub try_alt_setting-keeps :
      (alt : AltSetting) (d : UsbDevice) → P d → P (try_alt_setting u alt d).0
  unfolding try_alt_setting
  try_alt_setting-keeps alt d p =
      if-holds (λ r. P r.0) (is_expected_setting d.id alt)
        (if length alt.endpoints == d.bnum_endpoints then take_interface u alt d else (d, false))
        (d, true)
        (λ _.
          if-holds (λ r. P r.0) (length alt.endpoints == d.bnum_endpoints) (take_interface u alt d)
            (d, false) (λ _. take_interface-keeps alt d p) (λ _. p))
        (λ _. p)
