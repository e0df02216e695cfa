-- ===== src/DevicesHandler/Containers/Status.antt =====
-- What the devices handler promises of the status of a device, and that it keeps the promise.
use glogi_k.Prelude.{
  ℕ, true, false, ◌&&◌, List, [], ◌∷◌, ◌≡◌, refl, arith, ◌==◌, if◌then◌else◌, contains, is_some,
  find-erase, Bool-cases, inl, inr, ap, ◌∙◌, sym,
}
use glogi_k.DevicesManager.Disjoint.{find-put}
use glogi_k.DeviceProperties.{DeviceProperties}
use glogi_k.DevicesHandler.{
  DevicesHandler, World, set_device_properties, use_new_file, save_device_file,
}
use glogi_k.DevicesHandler.Containers.{
  to_started, to_stopped, Request, start, stop, unplug, clear, save, reload_file,
}

pub data Status : Type 0 where
  absent started stopped : Status

-- The abstract view: the status of a device.
unfoldable pub status_of : DevicesHandler → ℕ → Status
status_of h id =
    if contains id h.started_devices
    then started
    else if contains id h.stopped_devices
    then stopped
    else absent

-- The specification: a request gives a status to one device, or forgets all.
unfoldable pub specified : Request → (ℕ → Status) → ℕ → Status
specified (start w notifications id) f = λ j. if id == j then started else f j
specified (stop w notifications id) f = λ j. if id == j then stopped else f j
specified (unplug w notifications id) f = λ j. if id == j then absent else f j
specified (clear w notifications) f = λ j. absent
specified (save w id) f = f
specified (reload_file w id) f = f

unfoldable pub specified_all : List Request → (ℕ → Status) → ℕ → Status
specified_all [] f = f
specified_all (r ∷ rs) f = specified_all rs (specified r f)

abbrev pub Disjoint : DevicesHandler → Type 0
Disjoint h = (id : ℕ) → (contains id h.started_devices && contains id h.stopped_devices) ≡ false

-- A call that gives `s` to the device `id` and leaves the others.
pub record Sets (id : ℕ) (s : Status) (h h' : DevicesHandler) : Type 0 where
  pub disjoint : Disjoint h'
  pub status : (j : ℕ) → status_of h' j ≡ (if id == j then s else status_of h j)

-- A request only changes the containers through the handler that it starts from: making the
-- properties of a device leaves them.
pub set_device_properties-containers :
    (w : World) (id : ℕ) (device : DeviceProperties) (h : DevicesHandler)
    → ((set_device_properties w id device h).0.started_devices ≡ h.started_devices)
      × ((set_device_properties w id device h).0.stopped_devices ≡ h.stopped_devices)
unfolding set_device_properties use_new_file save_device_file
set_device_properties-containers w id device h = (ground arith, ground arith)

pub to_started-Sets :
    (id : ℕ) (device : DeviceProperties) (h : DevicesHandler)
    → Disjoint h
    → Sets id started h (to_started id device h)
unfolding to_started status_of is_some
to_started-Sets id device h d = record {
  disjoint = λ j.
      ground
        (arith, d j, find-put j id device h.started_devices, find-erase j id h.stopped_devices);
  status = λ j.
      ground
        (arith, d j, find-put j id device h.started_devices, find-erase j id h.stopped_devices);
}

pub to_stopped-Sets :
    (id : ℕ) (device : DeviceProperties) (h : DevicesHandler)
    → Disjoint h
    → Sets id stopped h (to_stopped id device h)
unfolding to_stopped status_of is_some
to_stopped-Sets id device h d = record {
  disjoint = λ j.
      ground
        (arith, d j, find-put j id device h.stopped_devices, find-erase j id h.started_devices);
  status = λ j.
      ground
        (arith, d j, find-put j id device h.stopped_devices, find-erase j id h.started_devices);
}

-- The status of a device that a container has.
pub started-status :
    (h : DevicesHandler) (id : ℕ) → contains id h.started_devices ≡ true → status_of h id ≡ started
unfolding status_of
started-status h id e = ground (arith, e)

pub stopped-status :
    (h : DevicesHandler) (id : ℕ)
    → Disjoint h
    → contains id h.stopped_devices ≡ true
    → status_of h id ≡ stopped
unfolding status_of
stopped-status h id d e = ground (arith, d id, e)

-- A device that has the status already.
pub same-Sets :
    (id : ℕ) (s : Status) (h : DevicesHandler) → Disjoint h → status_of h id ≡ s → Sets id s h h
same-Sets id s h d e = record {
  disjoint = d;
  status = λ j. elim (Bool-cases (id == j)) [
    | inl t ↦ let same : id ≡ j = ground (arith, t) in rw t (ap (status_of h) (sym same) ∙ e)
    | inr t ↦ rw t refl
  ];
}
