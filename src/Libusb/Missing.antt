-- ===== src/Libusb/Missing.antt =====
-- findUSBDeviceInterface on a device whose configurations do not have the expected interface.
use glogi_k.Prelude.{
  ℕ, ◌+◌, Bool, true, false, ◌&&◌, List, [], ◌∷◌, ◌≡◌, refl, arith, ◌==◌, if◌then◌else◌, if-holds,
  length, subst, sym, ap, ◌∙◌,
}
use glogi_k.Libusb.{
  Libusb, UsbId, UsbDevice, AltSetting, ConfigDescriptor, get_device_descriptor,
  get_config_descriptor, and_then, for_each, call, each_config, is_expected_setting, take_interface,
  try_alt_setting, try_config, find_usb_device_interface,
}
use glogi_k.Libusb.Held.{claim_step, claimed, detach_step, detached}
use glogi_k.Libusb.Matches.{any_setting, any_interface, has_settings}

-- The second device differs from the first in the calls at most, and in its log the same interfaces are
-- claimed and have their kernel driver detached.
pub record SameFields (d d' : UsbDevice) : Type 0 where
  pub same : d'.id ≡ d.id
  pub to_release : d'.to_release ≡ d.to_release
  pub to_attach : d'.to_attach ≡ d.to_attach
  pub keys : d'.keys_endpoint ≡ d.keys_endpoint
  pub lcd : d'.lcd_endpoint ≡ d.lcd_endpoint
  pub claims : claimed d'.calls ≡ claimed d.calls
  pub detaches : detached d'.calls ≡ detached d.calls

-- From a device that differs in its calls from the first one.
SameFields-calls :
    (d e d' : UsbDevice)
    → e.id ≡ d.id
    → e.to_release ≡ d.to_release
    → e.to_attach ≡ d.to_attach
    → e.keys_endpoint ≡ d.keys_endpoint
    → e.lcd_endpoint ≡ d.lcd_endpoint
    → claimed e.calls ≡ claimed d.calls
    → detached e.calls ≡ detached d.calls
    → SameFields e d'
    → SameFields d d'
SameFields-calls d e d' a b c k l m n f = record {
  same = f.same ∙ a;
  to_release = f.to_release ∙ b;
  to_attach = f.to_attach ∙ c;
  keys = f.keys ∙ k;
  lcd = f.lcd ∙ l;
  claims = f.claims ∙ m;
  detaches = f.detaches ∙ n;
}

next_for_each :
    {A : Type 0} (f : A → UsbDevice → UsbDevice × Bool) (x : A) (xs : List A) (d : UsbDevice)
    → f x d ≡ (d, true)
    → for_each f xs d ≡ (d, true)
    → for_each f (x ∷ xs) d ≡ (d, true)
unfolding for_each and_then
next_for_each f x xs d one rest = ap (λ r. and_then r (for_each f xs)) one ∙ rest

module _ (u : Libusb) (id : UsbId) where
  try_alt_setting-missed :
      (alt : AltSetting) (d : UsbDevice)
      → d.id ≡ id
      → is_expected_setting id alt ≡ false
      → try_alt_setting u alt d ≡ (d, true)
  unfolding try_alt_setting
  try_alt_setting-missed alt d s x =
      ap
        (λ b.
          if b
          then (if length alt.endpoints == d.bnum_endpoints
              then take_interface u alt d
              else (d, false))
          else (d, true))
        (ap (λ i. is_expected_setting i alt) s ∙ x)

  settings-missed :
      (alts : List AltSetting) (d : UsbDevice)
      → d.id ≡ id
      → any_setting id alts ≡ false
      → for_each (try_alt_setting u) alts d ≡ (d, true)
  unfolding any_setting for_each
  settings-missed [] d s x = refl
  settings-missed (alt ∷ alts) d s x =
      next_for_each (try_alt_setting u) alt alts d
        (try_alt_setting-missed alt d s (ground (arith, x)))
        (settings-missed alts d s (ground (arith, x)))

  interfaces-missed :
      (interfaces : List (List AltSetting)) (d : UsbDevice)
      → d.id ≡ id
      → any_interface id interfaces ≡ false
      → for_each (for_each (try_alt_setting u)) interfaces d ≡ (d, true)
  unfolding any_interface for_each
  interfaces-missed [] d s x = refl
  interfaces-missed (alts ∷ interfaces) d s x =
      next_for_each (for_each (try_alt_setting u)) alts interfaces d
        (settings-missed alts d s (ground (arith, x)))
        (interfaces-missed interfaces d s (ground (arith, x)))

  try_config-missed :
      (config : ConfigDescriptor) (d : UsbDevice)
      → d.id ≡ id
      → (config.configuration_value == id.bconfiguration_value
          && any_interface id config.interfaces)
        ≡ false
      → try_config u config d ≡ (d, true)
  unfolding try_config
  try_config-missed config d s x =
      if-holds (λ r. r ≡ (d, true)) (config.configuration_value == d.bconfiguration_value)
        (for_each (for_each (try_alt_setting u)) config.interfaces d) (d, true)
        (λ t.
          let t' =
            ap (λ i. config.configuration_value == UsbId.bconfiguration_value i) (sym s) ∙ t in
          interfaces-missed config.interfaces d s (ground (arith, x, t')))
        (λ _. refl)

  configs-missed :
      (i : ℕ) (configs : List ConfigDescriptor) (d : UsbDevice)
      → d.id ≡ id
      → has_settings id configs ≡ false
      → ((each_config u (try_config u) i configs d).1 ≡ true)
        × SameFields d (each_config u (try_config u) i configs d).0
  unfolding has_settings each_config and_then call claimed claim_step detached detach_step
  configs-missed i [] d s x = (
    refl,
    record {
      same = refl;
      to_release = refl;
      to_attach = refl;
      keys = refl;
      lcd = refl;
      claims = refl;
      detaches = refl;
    },
  )
  configs-missed i (config ∷ configs) d s x =
      let d₁ = (call u (get_config_descriptor i) d).0 in
      let ok = (call u (get_config_descriptor i) d).1 in
      let next = each_config u (try_config u) (i + 1) configs in
      let one =
        if-holds (λ r. r ≡ (d₁, true)) ok (try_config u config d₁) (d₁, true)
          (λ _. try_config-missed config d₁ s (ground (arith, x))) (λ _. refl) in
      let (returned, rest) = configs-missed (i + 1) configs d₁ s (ground (arith, x)) in
      subst (λ r. ((and_then r next).1 ≡ true) × SameFields d (and_then r next).0) (sym one)
        (returned, SameFields-calls d d₁ (next d₁).0 refl refl refl refl refl refl refl rest)

module _ (u : Libusb) where
  -- The descriptors do not have the expected settings: findUSBDeviceInterface returns all the same, if
  -- the descriptor of the device can be read. By the log of the calls, the claimed interfaces and the
  -- detached drivers are then those of before, and so are the interfaces noted for release and for
  -- attaching and the two endpoints.
  pub find_usb_device_interface-missed :
      (d : UsbDevice)
      → has_settings d.id u.config_descriptors ≡ false
      → u.succeeds d.calls get_device_descriptor ≡ true
      → ((find_usb_device_interface u d).1 ≡ true) × SameFields d (find_usb_device_interface u d).0
  unfolding find_usb_device_interface call and_then claimed claim_step detached detach_step
  find_usb_device_interface-missed d x ok =
      let d₁ : UsbDevice = record d { calls = (get_device_descriptor, true) ∷ d.calls } in
      let next = each_config u (try_config u) 0 u.config_descriptors in
      let (returned, rest) = configs-missed u d.id 0 u.config_descriptors d₁ refl x in
      subst
        (λ b.
          ((and_then (record d { calls = (get_device_descriptor, b) ∷ d.calls }, b) next).1 ≡ true)
          × SameFields d
              (and_then (record d { calls = (get_device_descriptor, b) ∷ d.calls }, b) next).0)
        (sym ok)
        (returned, SameFields-calls d d₁ (next d₁).0 refl refl refl refl refl refl refl rest)
