-- ===== src/DevicesManager/Disjoint.antt =====
-- No device is started and stopped at once.
use glogi_k.Prelude.{
  ℕ, Bool, true, false, ◌&&◌, some, ◌≡◌, arith, ◌==◌, if◌then◌else◌, Map, find, contains, is_some,
  find-erase, Option-cases, inl, inr,
}
use glogi_k.DevicesManager.{
  DeviceDriver, DevicesManager, put, has_driver, to_started, to_stopped, to_unplugged, start_device,
  stop_device, initialize_device,
}

pub find-put {ℓ} :
    {A : Type ℓ} (k j : ℕ) (v : A) (m : Map A)
    → find k (put j v m) ≡ (if j == k then some v else find k m)
unfolding put find
find-put k j v m = ground (arith, find-erase k j m)

abbrev pub Disjoint : DevicesManager → Type 0
Disjoint m = (id : ℕ) → (contains id m.started_devices && contains id m.stopped_devices) ≡ false

to_started-Disjoint :
    (id : ℕ) (device : DeviceDriver) (m : DevicesManager)
    → Disjoint m
    → Disjoint (to_started id device m)
unfolding to_started is_some
to_started-Disjoint id device m h j =
    ground (arith, h j, find-put j id device m.started_devices, find-erase j id m.stopped_devices)

to_stopped-Disjoint :
    (id : ℕ) (device : DeviceDriver) (m : DevicesManager)
    → Disjoint m
    → Disjoint (to_stopped id device m)
unfolding to_stopped is_some
to_stopped-Disjoint id device m h j =
    ground (arith, h j, find-put j id device m.stopped_devices, find-erase j id m.started_devices)

pub to_unplugged-Disjoint :
    (id : ℕ) (device : DeviceDriver) (m : DevicesManager)
    → Disjoint m
    → Disjoint (to_unplugged id device m)
unfolding to_unplugged is_some
to_unplugged-Disjoint id device m h j = ground (arith, h j, find-erase j id m.stopped_devices)

-- A state, or one that is changed from it.
if-Disjoint :
    (b : Bool) (x y : Bool × DevicesManager)
    → Disjoint x.1
    → Disjoint y.1
    → Disjoint (if b then x else y).1
if-Disjoint true x y hx hy = hx
if-Disjoint false x y hx hy = hy

pub start_device-Disjoint :
    (opens : ℕ → Bool) (id : ℕ) (m : DevicesManager)
    → Disjoint m
    → Disjoint (start_device opens id m).1
unfolding start_device
start_device-Disjoint opens id m h = elim (Option-cases (find id m.stopped_devices)) [
  | inl e ↦ rw (e, start_device) h
  | inr (device, e) ↦
      rw (e, start_device)
        (if-Disjoint (has_driver m.drivers device.driver_id && opens id) _ _
          (to_started-Disjoint id device m h) h)
]

pub stop_device-Disjoint :
    (id : ℕ) (m : DevicesManager) → Disjoint m → Disjoint (stop_device id m).1
unfolding stop_device
stop_device-Disjoint id m h = elim (Option-cases (find id m.started_devices)) [
  | inl e ↦ rw (e, stop_device) h
  | inr (device, e) ↦
      rw (e, stop_device)
        (if-Disjoint (has_driver m.drivers device.driver_id) _ _ (to_stopped-Disjoint id device m h)
          h)
]

pub initialize_device-Disjoint :
    (opens : ℕ → Bool) (open_devices : Bool) (id : ℕ) (device : DeviceDriver) (m : DevicesManager)
    → Disjoint m
    → Disjoint (initialize_device opens open_devices id device m).1
unfolding initialize_device is_some
initialize_device-Disjoint opens open_devices id device m h j =
    ground
      (arith, h j, find-put j id device m.started_devices, find-put j id device m.stopped_devices)
