-- ===== src/DevicesManager/Good.antt =====
-- Each operation keeps the containers disjoint, the started devices unique and the one driver.
use glogi_k.Prelude.{
  ℕ, Bool, true, false, ◌&&◌, List, [], ◌∷◌, ◌≡◌, arith, if◌then◌else◌, Map, find, contains,
  is_some, find-erase, Option-cases, Bool-cases, inl, inr, Unique, erase-Unique,
}
use glogi_k.DevicesManager.{
  DeviceDriver, DevicesManager, put, has_driver, to_started, to_stopped, to_unplugged, start_device,
  stop_device, initialize_device, initialize_all, start_all, stop_all, unplug_stopped,
  unplug_started, unplug_all,
}
use glogi_k.DevicesManager.Disjoint.{
  Disjoint, to_unplugged-Disjoint, start_device-Disjoint, stop_device-Disjoint,
  initialize_device-Disjoint,
}

put-Unique {ℓ} : {A : Type ℓ} (k : ℕ) (v : A) (m : Map A) → Unique m → Unique (put k v m)
unfolding put is_some
put-Unique k v m h = (ground (arith, find-erase k k m), erase-Unique k m h)

-- The manager with its one driver.
pub record Good (d : ℕ) (m : DevicesManager) : Type 0 where
  pub drivers : m.drivers ≡ d ∷ []
  pub unique : Unique m.started_devices
  pub disjoint : Disjoint m

started-Unique :
    (b : Bool) (x y : Bool × DevicesManager)
    → Unique x.1.started_devices
    → Unique y.1.started_devices
    → Unique (if b then x else y).1.started_devices
started-Unique true x y hx hy = hx
started-Unique false x y hx hy = hy

start_device-Unique :
    (opens : ℕ → Bool) (id : ℕ) (m : DevicesManager)
    → Unique m.started_devices
    → Unique (start_device opens id m).1.started_devices
unfolding start_device to_started
start_device-Unique opens id m h = elim (Option-cases (find id m.stopped_devices)) [
  | inl e ↦ rw (e, start_device) h
  | inr (device, e) ↦
      rw (e, start_device)
        (started-Unique (has_driver m.drivers device.driver_id && opens id) _ _
          (put-Unique id device m.started_devices h) h)
]

stop_device-Unique :
    (id : ℕ) (m : DevicesManager)
    → Unique m.started_devices
    → Unique (stop_device id m).1.started_devices
unfolding stop_device to_stopped
stop_device-Unique id m h = elim (Option-cases (find id m.started_devices)) [
  | inl e ↦ rw (e, stop_device) h
  | inr (device, e) ↦
      rw (e, stop_device)
        (started-Unique (has_driver m.drivers device.driver_id) _ _
          (erase-Unique id m.started_devices h) h)
]

initialize_device-Unique :
    (opens : ℕ → Bool) (open_devices : Bool) (id : ℕ) (device : DeviceDriver) (m : DevicesManager)
    → Unique m.started_devices
    → Unique (initialize_device opens open_devices id device m).1.started_devices
unfolding initialize_device
initialize_device-Unique opens open_devices id device m h =
    started-Unique (contains id m.started_devices) _ _ h (
      started-Unique (contains id m.stopped_devices) _ _ h (
        started-Unique (has_driver m.drivers device.driver_id) _ _
          (started-Unique open_devices _ _
            (started-Unique (opens id) _ _ (put-Unique id device m.started_devices h) h) h)
          h))

pub start_device-Good :
    (d : ℕ) (opens : ℕ → Bool) (id : ℕ) (m : DevicesManager)
    → Good d m
    → Good d (start_device opens id m).1
unfolding start_device to_started
start_device-Good d opens id m h = record {
  drivers = ground (arith, h.drivers);
  unique = start_device-Unique opens id m h.unique;
  disjoint = start_device-Disjoint opens id m h.disjoint;
}

pub stop_device-Good : (d id : ℕ) (m : DevicesManager) → Good d m → Good d (stop_device id m).1
unfolding stop_device to_stopped
stop_device-Good d id m h = record {
  drivers = ground (arith, h.drivers);
  unique = stop_device-Unique id m h.unique;
  disjoint = stop_device-Disjoint id m h.disjoint;
}

initialize_device-Good :
    (d : ℕ) (opens : ℕ → Bool) (open_devices : Bool) (id : ℕ) (device : DeviceDriver)
    (m : DevicesManager)
    → Good d m
    → Good d (initialize_device opens open_devices id device m).1
unfolding initialize_device
initialize_device-Good d opens open_devices id device m h = record {
  drivers = ground (arith, h.drivers);
  unique = initialize_device-Unique opens open_devices id device m h.unique;
  disjoint = initialize_device-Disjoint opens open_devices id device m h.disjoint;
}

pub initialize_all-Good :
    (d : ℕ) (opens : ℕ → Bool) (open_devices : Bool) (detected : Map DeviceDriver)
    (m : DevicesManager)
    → Good d m
    → Good d (initialize_all opens open_devices detected m).1
unfolding initialize_all
initialize_all-Good d opens open_devices [] m h = h
initialize_all-Good d opens open_devices ((id, device) ∷ rest) m h =
    initialize_all-Good d opens open_devices rest _
      (initialize_device-Good d opens open_devices id device m h)

pub start_all-Good :
    (d : ℕ) (opens : ℕ → Bool) (ids : List ℕ) (m : DevicesManager)
    → Good d m
    → Good d (start_all opens ids m)
unfolding start_all
start_all-Good d opens [] m h = h
start_all-Good d opens (id ∷ ids) m h =
    start_all-Good d opens ids _ (start_device-Good d opens id m h)

pub stop_all-Good : (d : ℕ) (ids : List ℕ) (m : DevicesManager) → Good d m → Good d (stop_all ids m)
unfolding stop_all
stop_all-Good d [] m h = h
stop_all-Good d (id ∷ ids) m h = stop_all-Good d ids _ (stop_device-Good d id m h)

pub unplug_stopped-Good :
    (d id : ℕ) (m : DevicesManager) → Good d m → Good d (unplug_stopped id m).1
unfolding unplug_stopped to_unplugged
unplug_stopped-Good d id m h = elim (Option-cases (find id m.stopped_devices)) [
  | inl e ↦ rw (e, unplug_stopped) h
  | inr (device, e) ↦
      rw (e, unplug_stopped)
        (record {
          drivers = h.drivers;
          unique = h.unique;
          disjoint = to_unplugged-Disjoint id device m h.disjoint;
        })
]

pub unplug_started-Good :
    (d id : ℕ) (m : DevicesManager) → Good d m → Good d (unplug_started id m).1
unfolding unplug_started
unplug_started-Good d id m h =
    let stopped = stop_device-Good d id m h in
    elim (Bool-cases (stop_device id m).0) [
      | inl e ↦ rw (e, if◌then◌else◌) (unplug_stopped-Good d id (stop_device id m).1 stopped)
      | inr e ↦ rw (e, if◌then◌else◌) stopped
    ]

pub unplug_all-Good :
    (d : ℕ) (unplug : ℕ → DevicesManager → Bool × DevicesManager)
    → ((id : ℕ) (m : DevicesManager) → Good d m → Good d (unplug id m).1)
    → (ids : List ℕ) (m : DevicesManager) → Good d m
    → Good d (unplug_all unplug ids m).1
unfolding unplug_all
unplug_all-Good d unplug hu [] m h = h
unplug_all-Good d unplug hu (id ∷ ids) m h = unplug_all-Good d unplug hu ids _ (hu id m h)
