-- ===== src/Libusb/Taken.antt =====
-- The interface that findUSBDeviceInterface takes is noted.
use glogi_k.Prelude.{
  ℕ, Bool, true, false, List, [], ◌∷◌, ◌++◌, bit_and, refl, arith, ◌==◌, if◌then◌else◌, if-holds,
  length,
}
use glogi_k.Libusb.{
  Libusb, UsbDevice, Endpoint, AltSetting, ConfigDescriptor, get_device_descriptor,
  get_configuration, get_config_descriptor, claim_interface, and_then, for_each, call,
  detach_kernel_driver_from_usb_device_interface, each_config, note_endpoint, note_endpoints,
  is_expected_setting, push_to_release, check_configuration, find_endpoints, take_interface,
  try_alt_setting, try_config, find_usb_device_interface,
}
use glogi_k.Libusb.Held.{is_neutral, claim_interface-Holds}
use glogi_k.Libusb.Claims.{
  Tracked, and_then-keeps, for_each-keeps, call-Tracked,
  detach_kernel_driver_from_usb_device_interface-Tracked,
}
use glogi_k.Libusb.Configuration.{each_config-keeps}

module _ (u : Libusb) where
  claimed-Tracked :
      (n : ℕ) (ok : Bool) (d : UsbDevice) (next : UsbDevice → UsbDevice × Bool)
      → Tracked false d
      → ((d' : UsbDevice) → Tracked false d' → Tracked false (next d').0)
      → Tracked false
          (and_then
            (record d { calls = (claim_interface n, ok) ∷ d.calls }, ok)
            (λ d₂. and_then (push_to_release n d₂) next)).0
  unfolding and_then push_to_release
  claimed-Tracked n true d next t h =
      h
        (record d {
          calls = (claim_interface n, true) ∷ d.calls;
          to_release = d.to_release ++ n ∷ [];
        })
        (record {
          holds = claim_interface-Holds n true d.to_release d.to_attach d.calls t.holds;
          status = t.status;
          nothing = λ e. absurd (ground (arith, e));
        })
  claimed-Tracked n false d next t h = record {
    holds = claim_interface-Holds n false d.to_release d.to_attach d.calls t.holds;
    status = t.status;
    nothing = t.nothing;
  }

  note_endpoint-Tracked :
      (ep : Endpoint) (d : UsbDevice) → Tracked false d → Tracked false (note_endpoint ep d)
  unfolding note_endpoint
  note_endpoint-Tracked ep d t =
      let keys : UsbDevice = record d { keys_endpoint = bit_and ep.endpoint_address 255 } in
      let lcd : UsbDevice = record d { lcd_endpoint = bit_and ep.endpoint_address 255 } in
      let t_keys : Tracked false keys = record {
        holds = t.holds;
        status = t.status;
        nothing = t.nothing;
      } in
      let t_lcd : Tracked false lcd = record {
        holds = t.holds;
        status = t.status;
        nothing = t.nothing;
      } in
      let if_keys = if d.keys_endpoint == 0 then keys else d in
      let if_lcd = if d.lcd_endpoint == 0 then lcd else d in
      if-holds (Tracked false) (bit_and ep.attributes 3 == 3)
        (if bit_and ep.endpoint_address 128 == 128 then if_keys else if_lcd) d
        (λ _.
          if-holds (Tracked false) (bit_and ep.endpoint_address 128 == 128) if_keys if_lcd
            (λ _. if-holds (Tracked false) (d.keys_endpoint == 0) keys d (λ _. t_keys) (λ _. t))
            (λ _. if-holds (Tracked false) (d.lcd_endpoint == 0) lcd d (λ _. t_lcd) (λ _. t)))
        (λ _. t)

  note_endpoints-Tracked :
      (eps : List Endpoint) (d : UsbDevice) → Tracked false d → Tracked false (note_endpoints eps d)
  unfolding note_endpoints
  note_endpoints-Tracked [] d t = t
  note_endpoints-Tracked (ep ∷ eps) d t =
      note_endpoints-Tracked eps (note_endpoint ep d) (note_endpoint-Tracked ep d t)

  take_interface-Tracked :
      (alt : AltSetting) (d : UsbDevice)
      → Tracked false d
      → Tracked false (take_interface u alt d).0
  unfolding take_interface call check_configuration find_endpoints is_neutral
  take_interface-Tracked alt d t =
      let n = alt.interface_number in
      let finish : UsbDevice → UsbDevice × Bool =
        λ d₃. and_then (check_configuration u d₃) (find_endpoints alt.endpoints) in
      and_then-keeps (Tracked false) (detach_kernel_driver_from_usb_device_interface u n d)
        (λ d₁.
          and_then (call u (claim_interface n) d₁) (λ d₂. and_then (push_to_release n d₂) finish))
        (detach_kernel_driver_from_usb_device_interface-Tracked u false n d t)
        (λ d₁ t₁. claimed-Tracked n (u.succeeds d₁.calls (claim_interface n)) d₁ finish t₁ (λ d₃ t₃.
          and_then-keeps (Tracked false) (check_configuration u d₃) (find_endpoints alt.endpoints)
            (and_then-keeps (Tracked false) (call u get_configuration d₃)
              (λ d₄. (d₄, u.configuration d₃.calls == d₃.bconfiguration_value))
              (call-Tracked u false get_configuration d₃ refl t₃) (λ d₄ t₄. t₄))
            (λ d₄ t₄. note_endpoints-Tracked alt.endpoints d₄ t₄)))

  try_alt_setting-Tracked :
      (alt : AltSetting) (d : UsbDevice)
      → Tracked false d
      → Tracked false (try_alt_setting u alt d).0
  unfolding try_alt_setting
  try_alt_setting-Tracked alt d t =
      if-holds (λ r. Tracked false r.0) (is_expected_setting d.id alt)
        (if length alt.endpoints == d.bnum_endpoints then take_interface u alt d else (d, false))
        (d, true)
        (λ _.
          if-holds (λ r. Tracked false r.0) (length alt.endpoints == d.bnum_endpoints)
            (take_interface u alt d) (d, false) (λ _. take_interface-Tracked alt d t) (λ _. t))
        (λ _. t)

  try_config-Tracked :
      (config : ConfigDescriptor) (d : UsbDevice)
      → Tracked false d
      → Tracked false (try_config u config d).0
  unfolding try_config
  try_config-Tracked config d t =
      if-holds (λ r. Tracked false r.0) (config.configuration_value == d.bconfiguration_value)
        (for_each (for_each (try_alt_setting u)) config.interfaces d) (d, true)
        (λ _.
          for_each-keeps (Tracked false) (for_each (try_alt_setting u)) config.interfaces d
            (λ alts d₁ t₁.
              for_each-keeps (Tracked false) (try_alt_setting u) alts d₁ try_alt_setting-Tracked t₁)
            t)
        (λ _. t)

  pub find_usb_device_interface-Tracked :
      (d : UsbDevice) → Tracked false d → Tracked false (find_usb_device_interface u d).0
  unfolding find_usb_device_interface is_neutral
  find_usb_device_interface-Tracked d t =
      and_then-keeps (Tracked false) (call u get_device_descriptor d)
        (each_config u (try_config u) 0 u.config_descriptors)
        (call-Tracked u false get_device_descriptor d refl t)
        (λ d₁ t₁.
          each_config-keeps u (Tracked false) (try_config u) 0 u.config_descriptors d₁
            (λ j d' t'. call-Tracked u false (get_config_descriptor j) d' refl t')
            try_config-Tracked t₁)
