-- ===== src/DevicesManager/Runs.antt =====
-- No sequence of calls ends in an exception while there is one driver.
use glogi_k.Prelude.{
  ℕ, Unique, Bool, true, false, not, ◌&&◌, List, [], ◌∷◌, ◌++◌, Option, some, ◌≡◌, refl, arith,
  ◌==◌, Map, find, ap, ◌∙◌, contains, is_some, find-erase, Option-cases, Bool-cases, inl, inr, All,
}
use glogi_k.DevicesManager.{
  DeviceDriver, DevicesManager, StatusSignal, devices_stopped, send_status_signal, map_keys,
  to_stopped, stop_device, initialize_devices, start_sleeping_devices, stop_initialized_devices,
  check_threads, check_all_threads, check_initialized_devices_threads_status, unplug_stopped,
  unplug_started, unplug_all, not_detected, check_for_unplugged_devices, Call,
  search_supported_devices, initialize, start, stop, start_sleeping, stop_initialized,
  check_threads_status, check_unplugged, call, call_all,
}
use glogi_k.DevicesManager.Good.{
  Good, start_device-Good, stop_device-Good, initialize_all-Good, start_all-Good, stop_all-Good,
  unplug_stopped-Good, unplug_started-Good, unplug_all-Good,
}

-- Different names, all in the container.
abbrev Present : Map DeviceDriver → List ℕ → Type 0
Present started [] = Unit
Present started (id ∷ ids) =
    (contains id started ≡ true) × All (λ j. (id == j) ≡ false) ids × Present started ids

-- What another container still has of the names.
Present-mono :
    (id : ℕ) (m n : Map DeviceDriver) (ids : List ℕ)
    → ((j : ℕ) → (id == j) ≡ false → contains j n ≡ contains j m)
    → All (λ j. (id == j) ≡ false) ids
    → Present m ids
    → Present n ids
Present-mono id m n [] same other h = tt
Present-mono id m n (j ∷ js) same other h =
    (same j other.0 ∙ h.0, h.1, Present-mono id m n js same other.1 h.2)

Present-cons :
    (k : ℕ) (v : DeviceDriver) (m : Map DeviceDriver) (ids : List ℕ)
    → Present m ids
    → Present ((k, v) ∷ m) ids
unfolding find is_some
Present-cons k v m [] h = tt
Present-cons k v m (j ∷ js) h = (ground (arith, h.0), h.1, Present-cons k v m js h.2)

keys_differ :
    (k : ℕ) (m : Map DeviceDriver) → contains k m ≡ false → All (λ j. (k == j) ≡ false) (map_keys m)
unfolding find is_some map_keys
keys_differ k [] h = tt
keys_differ k ((j, v) ∷ m) h = (ground arith, keys_differ k m (ground arith))

map_keys-Present : (m : Map DeviceDriver) → Unique m → Present m (map_keys m)
unfolding map_keys find is_some
map_keys-Present [] h = tt
map_keys-Present ((k, v) ∷ m) h =
    (ground arith, keys_differ k m h.0, Present-cons k v m (map_keys m) (map_keys-Present m h.1))

-- What the check of one device leaves: the others are where they were.
stop_device-others :
    (id j : ℕ) (m : DevicesManager)
    → (id == j) ≡ false
    → contains j (stop_device id m).1.started_devices ≡ contains j m.started_devices
unfolding stop_device to_stopped is_some
stop_device-others id j m h = ground (arith, find-erase j id m.started_devices)

record Checked (d id : ℕ) (m : DevicesManager) (r : DevicesManager × List ℕ) : Type 0 where
  pub good : Good d r.0
  pub others :
      (j : ℕ) → (id == j) ≡ false → contains j r.0.started_devices ≡ contains j m.started_devices

one_driver :
    (d : ℕ) (threads : ℕ → Bool) (id : ℕ) (m : DevicesManager) (device : DeviceDriver)
    → find id m.started_devices ≡ some device
    → Good d m
    → (r : DevicesManager × List ℕ) × (check_threads threads (d ∷ []) id m ≡ some r)
      × Checked d id m r
unfolding check_threads
one_driver d threads id m device e h =
    elim (Bool-cases (device.driver_id == d && not (threads id))) [
      | inl stopped ↦ (
        ((stop_device id m).1, id ∷ []),
        ground (arith, e),
        record {
          good = stop_device-Good d id m h;
          others = λ j other. stop_device-others id j m other;
        },
      )
      | inr running ↦ ((m, []), ground (arith, e), record { good = h; others = λ j other. refl })
    ]

-- With one driver the loop over the drivers does not look for a device that it has stopped.
check_threads-Checked :
    (d : ℕ) (threads : ℕ → Bool) (id : ℕ) (m : DevicesManager)
    → contains id m.started_devices ≡ true
    → Good d m
    → (r : DevicesManager × List ℕ) × (check_threads threads m.drivers id m ≡ some r)
      × Checked d id m r
unfolding is_some
check_threads-Checked d threads id m e h =
    let here : check_threads threads m.drivers id m ≡ check_threads threads (d ∷ []) id m =
      ap (λ (ds : List ℕ). check_threads threads ds id m) h.drivers in
    elim (Option-cases (find id m.started_devices)) [
      | inl absent ↦ absurd (ground arith)
      | inr (device, found) ↦
          let (r, p, checked) = one_driver d threads id m device found h in (r, here ∙ p, checked)
    ]

check_all_threads-Good :
    (d : ℕ) (threads : ℕ → Bool) (ids : List ℕ) (m : DevicesManager)
    → Present m.started_devices ids
    → Good d m
    → (r : DevicesManager × List ℕ) × (check_all_threads threads ids m ≡ some r) × Good d r.0
unfolding check_all_threads
check_all_threads-Good d threads [] m p h = ((m, []), refl, h)
check_all_threads-Good d threads (id ∷ ids) m p h =
    let (r₁, e₁, c) = check_threads-Checked d threads id m p.0 h in
    let rest = Present-mono id m.started_devices r₁.0.started_devices ids c.others p.1 p.2 in
    let (r₂, e₂, good) = check_all_threads-Good d threads ids r₁.0 rest c.good in
    ((r₂.0, r₁.1 ++ r₂.1), rw (e₁, check_all_threads) (rw (e₂, check_all_threads) refl), good)

CallGood : ℕ → Option (DevicesManager × List StatusSignal) → Type 0
CallGood d o = (r : DevicesManager × List StatusSignal) × (o ≡ some r) × Good d r.0

stop_initialized_devices-Good :
    (d : ℕ) (m : DevicesManager) → Good d m → Good d (stop_initialized_devices m)
unfolding stop_initialized_devices find is_some
stop_initialized_devices-Good d m h =
    let ids = map_keys m.started_devices in
    let stopped =
      stop_all-Good d ids (record m { sleeping_devices = ids })
        (record { drivers = h.drivers; unique = h.unique; disjoint = h.disjoint }) in
    record { drivers = stopped.drivers; unique = tt; disjoint = λ id. refl }

call-Good : (d : ℕ) (c : Call) (m : DevicesManager) → Good d m → CallGood d (call c m)
unfolding call CallGood initialize_devices start_sleeping_devices
    check_initialized_devices_threads_status check_for_unplugged_devices
call-Good d (search_supported_devices detected) m h =
    (_, refl, record { drivers = h.drivers; unique = h.unique; disjoint = h.disjoint })
call-Good d (initialize opens open_devices) m h =
    let g = initialize_all-Good d opens open_devices m.detected_devices m h in
    (_, refl, record { drivers = g.drivers; unique = g.unique; disjoint = g.disjoint })
call-Good d (start opens id) m h = (_, refl, start_device-Good d opens id m h)
call-Good d (stop id) m h = (_, refl, stop_device-Good d id m h)
call-Good d (start_sleeping opens) m h =
    let g = start_all-Good d opens m.sleeping_devices m h in
    (_, refl, record { drivers = g.drivers; unique = g.unique; disjoint = g.disjoint })
call-Good d stop_initialized m h = (_, refl, stop_initialized_devices-Good d m h)
call-Good d (check_threads_status threads) m h =
    let (r, e, g) =
      check_all_threads-Good d threads (map_keys m.started_devices) m
        (map_keys-Present m.started_devices h.unique) h in
    (
      (r.0, send_status_signal r.0 (devices_stopped r.1) r.1),
      rw (e, check_initialized_devices_threads_status) refl,
      g,
    )
call-Good d check_unplugged m h =
    let g₁ =
      unplug_all-Good d unplug_started (λ id m h. unplug_started-Good d id m h)
        (not_detected m.detected_devices m.started_devices) m h in
    let m₁ = (unplug_all unplug_started (not_detected m.detected_devices m.started_devices) m).1 in
    let g₂ =
      unplug_all-Good d unplug_stopped (λ id m h. unplug_stopped-Good d id m h)
        (not_detected m₁.detected_devices m₁.stopped_devices) m₁ g₁ in
    (_, refl, record { drivers = g₂.drivers; unique = g₂.unique; disjoint = g₂.disjoint })

-- With one driver, and each started device in its container once, no sequence of calls ends in an
-- exception, whatever udev detects, whether devices open and whether their threads run; and no
-- device is ever in the containers of started and of stopped devices at once.
pub call_all-Good :
    (d : ℕ) (cs : List Call) (m : DevicesManager)
    → Good d m
    → (r : DevicesManager × List StatusSignal) × (call_all cs m ≡ some r) × Good d r.0
unfolding call_all CallGood
call_all-Good d [] m h = ((m, []), refl, h)
call_all-Good d (c ∷ cs) m h =
    let (r₁, e₁, g₁) = call-Good d c m h in
    let (r₂, e₂, g₂) = call_all-Good d cs r₁.0 g₁ in
    ((r₂.0, r₁.1 ++ r₂.1), rw (e₁, call_all) (rw (e₂, call_all) refl), g₂)
