-- ===== src/Libusb/Ready.antt =====
-- openUSBDevice returns with the expected interface, if the descriptors have it.
use glogi_k.Prelude.{
  Bool, true, false, List, [], ◌∷◌, ◌++◌, ◌≡◌, refl, arith, ◌==◌, if◌then◌else◌, length, subst, sym,
  ap, ◌∙◌, Bool-cases, inl, inr,
}
use glogi_k.Libusb.{
  Libusb, UsbId, UsbDevice, Endpoint, AltSetting, claim_interface, and_then, for_each, call,
  detach_kernel_driver_from_usb_device_interface, is_expected_setting, push_to_release,
  check_configuration, find_endpoints, take_interface, try_alt_setting,
}
use glogi_k.Libusb.Held.{is_in, claimed}
use glogi_k.Libusb.Claims.{for_each-keeps}
use glogi_k.Libusb.Matches.{
  any_setting, any_interface, detach-keeps, note_endpoints-keeps, check_configuration-keeps,
  try_alt_setting-keeps,
}
use glogi_k.Libusb.Found.{
  Claimed, Ready, SameId, is_in-push, claimed-claim_interface, and_then-returned, kept-SameId,
  kept-Claimed, kept-Ready,
}

find_endpoints-Ready :
    (u : Libusb) (id : UsbId) (eps : List Endpoint) (d : UsbDevice)
    → Claimed id d
    → (find_endpoints eps d).1 ≡ true
    → Ready id (find_endpoints eps d).0
unfolding find_endpoints
find_endpoints-Ready u id eps d c e =
    let after = note_endpoints-keeps u (Claimed id) (kept-Claimed u id) eps d c in
    record {
      same = after.same;
      held = after.held;
      noted = after.noted;
      keys = ground (arith, e);
      lcd = ground (arith, e);
    }

expected_number :
    (id : UsbId) (alt : AltSetting)
    → is_expected_setting id alt ≡ true
    → alt.interface_number ≡ id.binterface_number
unfolding is_expected_setting
expected_number id alt x = ground (arith, x)

-- The tests for the settings and for the number of endpoints, both passed.
tested-Ready :
    (id : UsbId) (expected enough : Bool) (r : UsbDevice × Bool) (d : UsbDevice)
    → expected ≡ true
    → (if expected then (if enough then r else (d, false)) else (d, true)).1 ≡ true
    → (r.1 ≡ true → Ready id r.0)
    → Ready id (if expected then (if enough then r else (d, false)) else (d, true)).0
tested-Ready id true true r d x e h = h e
tested-Ready id true false r d x e h = absurd (ground (arith, e))
tested-Ready id false enough r d x e h = absurd (ground (arith, x))

module _ (u : Libusb) (id : UsbId) where
  pushed-Ready :
      (alt : AltSetting) (d : UsbDevice)
      → d.id ≡ id
      → alt.interface_number ≡ id.binterface_number
      → is_in alt.interface_number (claimed d.calls) ≡ true
      → (and_then
          (push_to_release alt.interface_number d)
          (λ d₃. and_then (check_configuration u d₃) (find_endpoints alt.endpoints))).1
        ≡ true
      → Ready id
          (and_then
            (push_to_release alt.interface_number d)
            (λ d₃. and_then (check_configuration u d₃) (find_endpoints alt.endpoints))).0
  unfolding push_to_release and_then
  pushed-Ready alt d s n h e =
      let d₃ : UsbDevice = record d { to_release = d.to_release ++ alt.interface_number ∷ [] } in
      let c : Claimed id d₃ = record {
        same = s;
        held = ap (λ m. is_in m (claimed d.calls)) (sym n) ∙ h;
        noted =
            ap (λ m. is_in m d₃.to_release) (sym n) ∙ is_in-push alt.interface_number d.to_release;
      } in
      let checked = check_configuration u d₃ in
      let (returned, same) = and_then-returned checked (find_endpoints alt.endpoints) e in
      subst (λ r. Ready id r.0) (sym same)
        (find_endpoints-Ready u id alt.endpoints checked.0
          (check_configuration-keeps u (Claimed id) (kept-Claimed u id) d₃ c)
          (ap (λ r. r.1) (sym same) ∙ e))

  take_interface-Ready :
      (alt : AltSetting) (d : UsbDevice)
      → d.id ≡ id
      → alt.interface_number ≡ id.binterface_number
      → (take_interface u alt d).1 ≡ true
      → Ready id (take_interface u alt d).0
  unfolding take_interface
  take_interface-Ready alt d s n e =
      let m = alt.interface_number in
      let push : UsbDevice → UsbDevice × Bool = λ d₂.
        and_then (push_to_release m d₂)
          (λ d₃. and_then (check_configuration u d₃) (find_endpoints alt.endpoints)) in
      let detached = detach_kernel_driver_from_usb_device_interface u m d in
      let claim = call u (claim_interface m) detached.0 in
      let (_, first) =
        and_then-returned detached (λ d₁. and_then (call u (claim_interface m) d₁) push) e in
      let e₁ = ap (λ r. r.1) (sym first) ∙ e in
      let (given, second) = and_then-returned claim push e₁ in
      let whole = first ∙ second in
      let s₁ = detach-keeps u (SameId id) (kept-SameId u id) m d s in
      subst (λ r. Ready id r.0) (sym whole)
        (pushed-Ready alt claim.0 ((kept-SameId u id).calls (claim_interface m) detached.0 refl s₁)
          n (claimed-claim_interface u m detached.0 given) (ap (λ r. r.1) (sym whole) ∙ e))

  try_alt_setting-Ready :
      (alt : AltSetting) (d : UsbDevice)
      → d.id ≡ id
      → is_expected_setting id alt ≡ true
      → (try_alt_setting u alt d).1 ≡ true
      → Ready id (try_alt_setting u alt d).0
  unfolding try_alt_setting
  try_alt_setting-Ready alt d s x e =
      tested-Ready id (is_expected_setting d.id alt) (length alt.endpoints == d.bnum_endpoints)
        (take_interface u alt d) d (ap (λ i. is_expected_setting i alt) s ∙ x) e
        (take_interface-Ready alt d s (expected_number id alt x))

  -- The loop over the settings of one interface: a setting that is expected makes the device ready, and
  -- the others leave it so.
  settings-Ready :
      (alts : List AltSetting) (d : UsbDevice)
      → d.id ≡ id
      → any_setting id alts ≡ true
      → (for_each (try_alt_setting u) alts d).1 ≡ true
      → Ready id (for_each (try_alt_setting u) alts d).0
  unfolding any_setting for_each
  settings-Ready [] d s x e = absurd (ground (arith, x))
  settings-Ready (alt ∷ alts) d s x e =
      let one = try_alt_setting u alt d in
      let (returned, first) = and_then-returned one (for_each (try_alt_setting u) alts) e in
      let e₁ = ap (λ r. r.1) (sym first) ∙ e in
      let s₁ = try_alt_setting-keeps u (SameId id) (kept-SameId u id) alt d s in
      subst (λ r. Ready id r.0) (sym first)
        (elim (Bool-cases (is_expected_setting id alt)) [
          | inl t ↦
              for_each-keeps (Ready id) (try_alt_setting u) alts one.0
                (try_alt_setting-keeps u (Ready id) (kept-Ready u id))
                (try_alt_setting-Ready alt d s t returned)
          | inr f ↦ settings-Ready alts one.0 s₁ (ground (arith, x, f)) e₁
        ])

  -- The loop over the interfaces.
  pub interfaces-Ready :
      (interfaces : List (List AltSetting)) (d : UsbDevice)
      → d.id ≡ id
      → any_interface id interfaces ≡ true
      → (for_each (for_each (try_alt_setting u)) interfaces d).1 ≡ true
      → Ready id (for_each (for_each (try_alt_setting u)) interfaces d).0
  unfolding any_interface for_each
  interfaces-Ready [] d s x e = absurd (ground (arith, x))
  interfaces-Ready (alts ∷ interfaces) d s x e =
      let one = for_each (try_alt_setting u) alts d in
      let (returned, first) =
        and_then-returned one (for_each (for_each (try_alt_setting u)) interfaces) e in
      let e₁ = ap (λ r. r.1) (sym first) ∙ e in
      let s₁ =
        for_each-keeps (SameId id) (try_alt_setting u) alts d
          (try_alt_setting-keeps u (SameId id) (kept-SameId u id)) s in
      subst (λ r. Ready id r.0) (sym first)
        (elim (Bool-cases (any_setting id alts)) [
          | inl t ↦
              for_each-keeps (Ready id) (for_each (try_alt_setting u)) interfaces one.0
                (λ alts' d' p.
                  for_each-keeps (Ready id) (try_alt_setting u) alts' d'
                    (try_alt_setting-keeps u (Ready id) (kept-Ready u id)) p)
                (settings-Ready alts d s t returned)
          | inr f ↦ interfaces-Ready interfaces one.0 s₁ (ground (arith, x, f)) e₁
        ])
