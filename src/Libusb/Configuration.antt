-- ===== src/Libusb/Configuration.antt =====
-- The loop over the configurations, and the change of the active one.
use glogi_k.Prelude.{ℕ, ◌+◌, Bool, true, List, [], ◌∷◌, refl, ◌==◌, if◌then◌else◌, if-holds}
use glogi_k.Libusb.{
  Libusb, UsbDevice, ConfigDescriptor, get_device_descriptor, get_configuration,
  get_config_descriptor, set_configuration, and_then, for_each, call,
  attach_usb_device_interfaces_to_kernel_drivers, detach_alt_setting, each_config, detach_config,
  change_configuration, set_usb_device_active_configuration,
}
use glogi_k.Libusb.Held.{is_neutral}
use glogi_k.Libusb.Claims.{
  Tracked, and_then-keeps, for_each-keeps, call-Tracked,
  detach_kernel_driver_from_usb_device_interface-Tracked,
  attach_usb_device_interfaces_to_kernel_drivers-Tracked,
}

module _ (u : Libusb) where
  pub each_config-keeps :
      (P : UsbDevice → Type 0) (body : ConfigDescriptor → UsbDevice → UsbDevice × Bool) (i : ℕ)
      (configs : List ConfigDescriptor) (d : UsbDevice)
      → ((j : ℕ) (d : UsbDevice) → P d → P (call u (get_config_descriptor j) d).0)
      → ((config : ConfigDescriptor) (d : UsbDevice) → P d → P (body config d).0)
      → P d
      → P (each_config u body i configs d).0
  unfolding each_config
  each_config-keeps P body i [] d c b p = p
  each_config-keeps P body i (config ∷ configs) d c b p =
      let (d₁, ok) = call u (get_config_descriptor i) d in
      and_then-keeps P (if ok then body config d₁ else (d₁, true))
        (each_config u body (i + 1) configs)
        (if-holds (λ r. P r.0) ok (body config d₁) (d₁, true) (λ _. b config d₁ (c i d p))
          (λ _. c i d p))
        (λ d₂ p₂. each_config-keeps P body (i + 1) configs d₂ c b p₂)

  detach_config-Tracked :
      (config : ConfigDescriptor) (d : UsbDevice)
      → Tracked true d
      → Tracked true (detach_config u config d).0
  unfolding detach_config detach_alt_setting
  detach_config-Tracked config d t =
      for_each-keeps (Tracked true) (for_each (detach_alt_setting u)) config.interfaces d
        (λ alts d₁ t₁.
          for_each-keeps (Tracked true) (detach_alt_setting u) alts d₁
            (λ alt.
              detach_kernel_driver_from_usb_device_interface-Tracked u true alt.interface_number)
            t₁)
        t

  change_configuration-Tracked :
      (d : UsbDevice) → Tracked true d → Tracked true (change_configuration u d).0
  unfolding change_configuration is_neutral
  change_configuration-Tracked d t =
      and_then-keeps (Tracked true) (call u get_device_descriptor d)
        (λ d₁. and_then (each_config u (detach_config u) 0 u.config_descriptors d₁) (λ d₂.
          and_then (call u (set_configuration d.bconfiguration_value) d₂)
            (λ d₃. (attach_usb_device_interfaces_to_kernel_drivers u d₃, true))))
        (call-Tracked u true get_device_descriptor d refl t)
        (λ d₁ t₁.
          and_then-keeps (Tracked true) (each_config u (detach_config u) 0 u.config_descriptors d₁)
            (λ d₂.
              and_then (call u (set_configuration d.bconfiguration_value) d₂)
                (λ d₃. (attach_usb_device_interfaces_to_kernel_drivers u d₃, true)))
            (each_config-keeps (Tracked true) (detach_config u) 0 u.config_descriptors d₁
              (λ j d' t'. call-Tracked u true (get_config_descriptor j) d' refl t')
              detach_config-Tracked t₁)
            (λ d₂ t₂.
              and_then-keeps (Tracked true) (call u (set_configuration d.bconfiguration_value) d₂)
                (λ d₃. (attach_usb_device_interfaces_to_kernel_drivers u d₃, true))
                (call-Tracked u true (set_configuration d.bconfiguration_value) d₂ refl t₂)
                (attach_usb_device_interfaces_to_kernel_drivers-Tracked u)))

  pub set_usb_device_active_configuration-Tracked :
      (d : UsbDevice) → Tracked true d → Tracked true (set_usb_device_active_configuration u d).0
  unfolding set_usb_device_active_configuration is_neutral
  set_usb_device_active_configuration-Tracked d t =
      and_then-keeps (Tracked true) (call u get_configuration d)
        (λ d₁.
          if u.configuration d.calls == d.bconfiguration_value
          then (d₁, true)
          else change_configuration u d₁)
        (call-Tracked u true get_configuration d refl t)
        (λ d₁ t₁.
          if-holds (λ r. Tracked true r.0) (u.configuration d.calls == d.bconfiguration_value)
            (d₁, true) (change_configuration u d₁) (λ _. t₁)
            (λ _. change_configuration-Tracked d₁ t₁))
