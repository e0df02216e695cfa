-- ===== src/DevicesHandler/Containers/KeptFiles.antt =====
-- Moving a device between the containers keeps the files distinct.
use glogi_k.Prelude.{
  ℕ, Bool, true, false, none, some, ◌≡◌, arith, ◌==◌, if◌then◌else◌, find, contains, erase, is_some,
  find-erase, Option-cases, Bool-cases, inl, inr, ap, ◌∙◌, sym,
}
use glogi_k.DevicesHandler.Containers.Status.{set_device_properties-containers}
use glogi_k.Filesystem.{FileName, is_in_set}
use glogi_k.DevicesManager.Disjoint.{find-put}
use glogi_k.DeviceProperties.{DeviceProperties, codes_none, new_device_properties}
use glogi_k.DevicesHandler.{DevicesHandler, World}
use glogi_k.DevicesHandler.Containers.{
  put_started, to_started, to_stopped, initialize_and_start, start_device, stop_started,
  stop_device, unref_device, unplug_device,
}
use glogi_k.DevicesHandler.Containers.Files.{
  file_of, DistinctFiles, already_used, file_of-already_used, Unused,
}
use glogi_k.DevicesHandler.Containers.FreshFiles.{set_device_properties-Unused}

-- A call that gives no device another file.
abbrev pub Keeps : DevicesHandler → DevicesHandler → Type 0
Keeps h h' = (id : ℕ) (name : FileName) → file_of h' id ≡ some name → file_of h id ≡ some name

pub Keeps-DistinctFiles : (h h' : DevicesHandler) → Keeps h h' → DistinctFiles h → DistinctFiles h'
Keeps-DistinctFiles h h' k d a b name ea eb = d a b name (k a name ea) (k b name eb)

to_started-Keeps :
    (id : ℕ) (device : DeviceProperties) (h : DevicesHandler)
    → find id h.started_devices ≡ none
    → find id h.stopped_devices ≡ some device
    → Keeps h (to_started id device h)
unfolding to_started file_of
to_started-Keeps id device h s t j name e = elim (Bool-cases (id == j)) [
  | inl q ↦
      let same : id ≡ j = ground (arith, q) in
      ground (
        arith,
        e,
        s,
        t,
        q,
        ap (λ k. find k h.started_devices) same,
        ap (λ k. find k h.stopped_devices) same,
        find-put j id device h.started_devices,
      )
  | inr q ↦
      ground
        (arith, e, q, find-put j id device h.started_devices, find-erase j id h.stopped_devices)
]

to_stopped-Keeps :
    (id : ℕ) (device : DeviceProperties) (h : DevicesHandler)
    → find id h.started_devices ≡ some device
    → Keeps h (to_stopped id device h)
unfolding to_stopped file_of
to_stopped-Keeps id device h s j name e = elim (Bool-cases (id == j)) [
  | inl q ↦
      let same : id ≡ j = ground (arith, q) in
      ground (
        arith,
        e,
        s,
        q,
        ap (λ k. find k h.started_devices) same,
        find-put j id device h.stopped_devices,
        find-erase j id h.started_devices,
      )
  | inr q ↦
      ground
        (arith, e, q, find-put j id device h.stopped_devices, find-erase j id h.started_devices)
]

put_started-file_of :
    (id j : ℕ) (device : DeviceProperties) (h h' : DevicesHandler)
    → h'.started_devices ≡ h.started_devices
    → h'.stopped_devices ≡ h.stopped_devices
    → file_of (put_started id device h') j
      ≡ (if id == j then some device.config_file_path else file_of h j)
unfolding file_of put_started
put_started-file_of id j device h h' s t =
    ground (arith, find-put j id device h'.started_devices, ap (find j) s, ap (find j) t)

-- The new device has the file of no other.
new-or-Unused :
    (h : DevicesHandler) (device : DeviceProperties) (b : ℕ) (name : FileName)
    → Unused h device
    → device.config_file_path ≡ name
    → file_of h b ≡ some name
    → name ≡ codes_none
new-or-Unused h device b name (inl e) same eb = sym same ∙ e
new-or-Unused h device b name (inr e) same eb = absurd (
    ground
      (arith, e, file_of-already_used h name b eb, ap (λ n. is_in_set n (already_used h)) same))

put_started-DistinctFiles :
    (id : ℕ) (device : DeviceProperties) (h h' : DevicesHandler)
    → h'.started_devices ≡ h.started_devices
    → h'.stopped_devices ≡ h.stopped_devices
    → Unused h device
    → DistinctFiles h
    → DistinctFiles (put_started id device h')
put_started-DistinctFiles id device h h' s t u d a b name ea eb =
    let fa = put_started-file_of id a device h h' s t in
    let fb = put_started-file_of id b device h h' s t in
    elim (Bool-cases (id == a)) [
      | inl p ↦ elim (Bool-cases (id == b)) [
        | inl q ↦ inl (ground (arith, p, q))
        | inr q ↦ inr (
            new-or-Unused h device b name u (ground (arith, ea, fa, p)) (ground (arith, eb, fb, q)))
      ]
      | inr p ↦ elim (Bool-cases (id == b)) [
        | inl q ↦ inr (
            new-or-Unused h device a name u (ground (arith, eb, fb, q)) (ground (arith, ea, fa, p)))
        | inr q ↦ d a b name (ground (arith, ea, fa, p)) (ground (arith, eb, fb, q))
      ]
    ]

pub start_device-DistinctFiles :
    (w : World) (notifications : Bool) (id : ℕ) (h : DevicesHandler)
    → DistinctFiles h
    → DistinctFiles (start_device w notifications id h).0
unfolding start_device initialize_and_start is_some
start_device-DistinctFiles w notifications id h d =
    elim (Option-cases (find id h.started_devices)) [
      | inr (device, e) ↦ rw (e, start_device) d
      | inl s ↦ elim (Option-cases (find id h.stopped_devices)) [
        | inl e ↦
            let (cs, ct) = set_device_properties-containers w id new_device_properties h in
            rw (s, e, start_device)
              (put_started-DistinctFiles id _ h _ cs ct (set_device_properties-Unused w id h) d)
        | inr (device, e) ↦
            rw (s, e, start_device) (Keeps-DistinctFiles h _ (to_started-Keeps id device h s e) d)
      ]
    ]

stop_started-DistinctFiles :
    (notifications : Bool) (id : ℕ) (h : DevicesHandler)
    → DistinctFiles h
    → DistinctFiles (stop_started notifications id h).0
unfolding stop_started
stop_started-DistinctFiles notifications id h d = elim (Option-cases (find id h.started_devices)) [
  | inl e ↦ rw (e, stop_started) d
  | inr (device, e) ↦
      rw (e, stop_started) (Keeps-DistinctFiles h _ (to_stopped-Keeps id device h e) d)
]

-- A state that a test chooses.
if-DistinctFiles {ℓ} :
    {A : Type ℓ} (b : Bool) (x y : DevicesHandler × A)
    → DistinctFiles x.0
    → DistinctFiles y.0
    → DistinctFiles (if b then x else y).0
if-DistinctFiles true x y hx hy = hx
if-DistinctFiles false x y hx hy = hy

pub stop_device-DistinctFiles :
    (w : World) (notifications : Bool) (id : ℕ) (h : DevicesHandler)
    → DistinctFiles h
    → DistinctFiles (stop_device w notifications id h).0
unfolding stop_device
stop_device-DistinctFiles w notifications id h d =
    let started = start_device-DistinctFiles w false id h d in
    if-DistinctFiles _ _ _ d (
      if-DistinctFiles (contains id h.started_devices) _ _
        (stop_started-DistinctFiles notifications id h d)
        (stop_started-DistinctFiles notifications id (start_device w false id h).0 started))

unref_device-DistinctFiles :
    (id : ℕ) (h : DevicesHandler) → DistinctFiles h → DistinctFiles (unref_device id h).0
unfolding unref_device file_of
unref_device-DistinctFiles id h d = elim (Option-cases (find id h.stopped_devices)) [
  | inl e ↦ rw (e, unref_device) d
  | inr (device, e) ↦
      let h' = record h { stopped_devices = erase id h.stopped_devices } in
      rw (e, unref_device)
        (Keeps-DistinctFiles h h' (λ j name f. ground (arith, f, find-erase j id h.stopped_devices))
          d)
]

pub unplug_device-DistinctFiles :
    (w : World) (notifications : Bool) (id : ℕ) (h : DevicesHandler)
    → DistinctFiles h
    → DistinctFiles (unplug_device w notifications id h).0
unfolding unplug_device
unplug_device-DistinctFiles w notifications id h d =
    let stopped = stop_device-DistinctFiles w notifications id h d in
    if-DistinctFiles _ _ _ (unref_device-DistinctFiles id h d)
      (unref_device-DistinctFiles id (stop_device w notifications id h).0 stopped)
