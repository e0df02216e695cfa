-- ===== src/Libusb/Present.antt =====
-- openUSBDevice, when the configurations of the device have the expected interface, and when not.
use glogi_k.Prelude.{
  ℕ, ◌+◌, true, ◌&&◌, List, [], ◌∷◌, ◌≡◌, refl, arith, ◌==◌, if◌then◌else◌, if-holds, subst, sym,
  ap, ◌∙◌, Bool-cases, inl, inr,
}
use glogi_k.Libusb.{
  Log, Libusb, UsbId, UsbDevice, AltSetting, ConfigDescriptor, get_device_descriptor,
  get_config_descriptor, and_then, for_each, call, each_config, try_alt_setting, try_config,
  find_usb_device_interface,
}
use glogi_k.Libusb.Claims.{for_each-keeps}
use glogi_k.Libusb.Configuration.{each_config-keeps}
use glogi_k.Libusb.Matches.{any_interface, has_settings, try_alt_setting-keeps}
use glogi_k.Libusb.Found.{Ready, SameId, and_then-returned, kept-SameId, kept-Ready}
use glogi_k.Libusb.Ready.{interfaces-Ready}

module _ (u : Libusb) (id : UsbId) where
  try_config-keeps :
      (P : UsbDevice → Type 0)
      → ((alt : AltSetting) (d : UsbDevice) → P d → P (try_alt_setting u alt d).0)
      → (config : ConfigDescriptor) (d : UsbDevice) → P d
      → P (try_config u config d).0
  unfolding try_config
  try_config-keeps P k config d p =
      if-holds (λ r. P r.0) (config.configuration_value == d.bconfiguration_value)
        (for_each (for_each (try_alt_setting u)) config.interfaces d) (d, true)
        (λ _.
          for_each-keeps P (for_each (try_alt_setting u)) config.interfaces d
            (λ alts d₁. for_each-keeps P (try_alt_setting u) alts d₁ k) p)
        (λ _. p)

  try_config-Ready :
      (config : ConfigDescriptor) (d : UsbDevice)
      → d.id ≡ id
      → (config.configuration_value == id.bconfiguration_value
          && any_interface id config.interfaces)
        ≡ true
      → (try_config u config d).1 ≡ true
      → Ready id (try_config u config d).0
  unfolding try_config
  try_config-Ready config d s x e =
      let t : (config.configuration_value == id.bconfiguration_value) ≡ true = ground (arith, x) in
      let t' = ap (λ i. config.configuration_value == UsbId.bconfiguration_value i) s ∙ t in
      let all = for_each (for_each (try_alt_setting u)) config.interfaces d in
      let taken : try_config u config d ≡ all = ap (λ b. if b then all else (d, true)) t' in
      subst (λ r. Ready id r.0) (sym taken)
        (interfaces-Ready u id config.interfaces d s (ground (arith, x))
          (ap (λ r. r.1) (sym taken) ∙ e))

  descriptor_read :
      ((l : Log) (j : ℕ) → u.succeeds l (get_config_descriptor j) ≡ true)
      → (i : ℕ) (d : UsbDevice) → (call u (get_config_descriptor i) d).1 ≡ true
  unfolding call
  descriptor_read ok i d = ok d.calls i

  configs-Ready :
      ((l : Log) (j : ℕ) → u.succeeds l (get_config_descriptor j) ≡ true)
      → (i : ℕ) (configs : List ConfigDescriptor) (d : UsbDevice) → d.id ≡ id
      → has_settings id configs ≡ true
      → (each_config u (try_config u) i configs d).1 ≡ true
      → Ready id (each_config u (try_config u) i configs d).0
  unfolding has_settings each_config
  configs-Ready ok i [] d s x e = absurd (ground (arith, x))
  configs-Ready ok i (config ∷ configs) d s x e =
      let called = call u (get_config_descriptor i) d in
      let next = each_config u (try_config u) (i + 1) configs in
      let one = try_config u config called.0 in
      let taken : (if called.1 then one else (called.0, true)) ≡ one =
        ap (λ b. if b then one else (called.0, true)) (descriptor_read ok i d) in
      let start = ap (λ r. and_then r next) taken in
      let (returned, first) = and_then-returned one next (ap (λ r. r.1) (sym start) ∙ e) in
      let whole = start ∙ first in
      let s₁ = (kept-SameId u id).calls (get_config_descriptor i) d refl s in
      let s₂ =
        try_config-keeps (SameId id) (try_alt_setting-keeps u (SameId id) (kept-SameId u id)) config
          called.0 s₁ in
      let ready = kept-Ready u id in
      subst (λ r. Ready id r.0) (sym whole)
        (elim (Bool-cases (
          config.configuration_value == id.bconfiguration_value
          && any_interface id config.interfaces)) [
            | inl t ↦
                each_config-keeps u (Ready id) (try_config u) (i + 1) configs one.0
                  (λ j d'. ready.calls (get_config_descriptor j) d' refl)
                  (try_config-keeps (Ready id) (try_alt_setting-keeps u (Ready id) ready))
                  (try_config-Ready config called.0 s₁ t returned)
            | inr f ↦
                configs-Ready ok (i + 1) configs one.0 s₂ (ground (arith, x, f))
                  (ap (λ r. r.1) (sym whole) ∙ e)
          ])

module _ (u : Libusb) where
  -- The descriptors of the device have the expected settings and can be read: when
  -- findUSBDeviceInterface returns, whatever else libusb answers, libusb was asked for the expected
  -- interface with success and not asked to release it since, it is noted for release, and the endpoints of the keys and of the LCD screen are known.
  pub find_usb_device_interface-Ready :
      (d : UsbDevice)
      → ((l : Log) (j : ℕ) → u.succeeds l (get_config_descriptor j) ≡ true)
      → has_settings d.id u.config_descriptors ≡ true
      → (find_usb_device_interface u d).1 ≡ true
      → Ready d.id (find_usb_device_interface u d).0
  unfolding find_usb_device_interface
  find_usb_device_interface-Ready d ok x e =
      let called = call u get_device_descriptor d in
      let next = each_config u (try_config u) 0 u.config_descriptors in
      let (_, first) = and_then-returned called next e in
      subst (λ r. Ready d.id r.0) (sym first)
        (configs-Ready u d.id ok 0 u.config_descriptors called.0
          ((kept-SameId u d.id).calls get_device_descriptor d refl refl) x
          (ap (λ r. r.1) (sym first) ∙ e))
