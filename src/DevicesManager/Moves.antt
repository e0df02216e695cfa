-- ===== src/DevicesManager/Moves.antt =====
-- Where a device is after it was stopped, started or both.
use glogi_k.Prelude.{
  ℕ, Bool, true, false, not, ◌&&◌, some, ◌≡◌, refl, arith, ◌==◌, if◌then◌else◌, find, contains,
  is_some, find-erase, Option-cases, Bool-cases, inl, inr, ap, ◌∙◌,
}
use glogi_k.DevicesManager.{
  DeviceDriver, DevicesManager, status_started, status_stopped, has_driver, to_started, to_stopped,
  start_device, stop_device, get_device_status,
}
use glogi_k.DevicesManager.Disjoint.{find-put}

to_stopped-get_device_status :
    (id j : ℕ) (device : DeviceDriver) (m : DevicesManager)
    → get_device_status j (to_stopped id device m)
      ≡ (if id == j then status_stopped else get_device_status j m)
unfolding to_stopped get_device_status is_some
to_stopped-get_device_status id j device m =
    ground (arith, find-put j id device m.stopped_devices, find-erase j id m.started_devices)

to_started-get_device_status :
    (id j : ℕ) (device : DeviceDriver) (m : DevicesManager)
    → get_device_status j (to_started id device m)
      ≡ (if id == j then status_started else get_device_status j m)
unfolding to_started get_device_status is_some
to_started-get_device_status id j device m =
    ground (arith, find-put j id device m.started_devices, find-erase j id m.stopped_devices)

-- `stopDevice` on a device that is not started changes nothing, and returns false. If it returns
-- true the device's status is stopped and that of every other device is as before, if it returns
-- false all are.
stop_device-get_device_status :
    (id j : ℕ) (m : DevicesManager)
    → let (ok, m') = stop_device id m in
      (get_device_status j m' ≡ (if id == j && ok then status_stopped else get_device_status j m))
      × ((ok && not (contains id m.started_devices)) ≡ false)
unfolding stop_device is_some
stop_device-get_device_status id j m = elim (Option-cases (find id m.started_devices)) [
  | inl e ↦ (ground arith, ground arith)
  | inr (device, e) ↦ elim (Bool-cases (has_driver m.drivers device.driver_id)) [
    | inl d ↦ (ground (arith, to_stopped-get_device_status id j device m), ground arith)
    | inr d ↦ (ground arith, ground arith)
  ]
]

stops :
    (id : ℕ) (m : DevicesManager) (device : DeviceDriver)
    → find id m.started_devices ≡ some device
    → has_driver m.drivers device.driver_id ≡ true
    → stop_device id m ≡ (true, to_stopped id device m)
unfolding stop_device
stops id m device found driver = rw (found, stop_device) (rw (driver, if◌then◌else◌) refl)

starts :
    (opens : ℕ → Bool) (id : ℕ) (m : DevicesManager) (device : DeviceDriver)
    → find id m.stopped_devices ≡ some device
    → has_driver m.drivers device.driver_id ≡ true
    → opens id ≡ true
    → start_device opens id m ≡ (true, to_started id device m)
unfolding start_device
starts opens id m device found driver ok =
    rw (found, start_device) (rw (driver, ok, if◌then◌else◌) refl)

stopped_found :
    (id : ℕ) (device : DeviceDriver) (m : DevicesManager)
    → find id (to_stopped id device m).stopped_devices ≡ some device
unfolding to_stopped
stopped_found id device m = ground (arith, find-put id id device m.stopped_devices)

started_status :
    (id : ℕ) (device : DeviceDriver) (m : DevicesManager)
    → find id m.started_devices ≡ some device
    → get_device_status id m ≡ status_started
unfolding get_device_status is_some
started_status id device m found = ground arith

back :
    (id j : ℕ) (device : DeviceDriver) (m : DevicesManager)
    → find id m.started_devices ≡ some device
    → get_device_status j (to_started id device (to_stopped id device m)) ≡ get_device_status j m
back id j device m found = ground (
  arith,
  started_status id device m found,
  to_started-get_device_status id j device (to_stopped id device m),
  to_stopped-get_device_status id j device m,
)

-- A started device that has a driver and opens again can be stopped and started: both succeed, and
-- afterwards every device has the status that it had.
pub stop_device-start_device :
    (opens : ℕ → Bool) (id j : ℕ) (m : DevicesManager) (device : DeviceDriver)
    → find id m.started_devices ≡ some device
    → has_driver m.drivers device.driver_id ≡ true
    → opens id ≡ true
    → let m₁ = (stop_device id m).1 in
      ((stop_device id m).0 ≡ true)
      × ((start_device opens id m₁).0 ≡ true)
      × (get_device_status j (start_device opens id m₁).1 ≡ get_device_status j m)
unfolding to_stopped
stop_device-start_device opens id j m device found driver ok =
    let stopped = to_stopped id device m in
    let e₁ : stop_device id m ≡ (true, stopped) = stops id m device found driver in
    let e₂ : start_device opens id stopped ≡ (true, to_started id device stopped) =
      starts opens id stopped device (stopped_found id device m) driver ok in
    (
      ap (λ (r : Bool × DevicesManager). r.0) e₁,
      ap (λ (r : Bool × DevicesManager). (start_device opens id r.1).0) e₁
          ∙ ap (λ (r : Bool × DevicesManager). r.0) e₂,
      ap (λ (r : Bool × DevicesManager). get_device_status j (start_device opens id r.1).1) e₁
          ∙ ap (λ (r : Bool × DevicesManager). get_device_status j r.1) e₂
          ∙ back id j device m found,
    )
