-- ===== src/DevicesHandler/Containers/Moves.antt =====
-- Starting, stopping and unplugging a device set its status and leave the others.
use glogi_k.Prelude.{
  ℕ, Bool, true, false, ◌≡◌, refl, arith, find, contains, is_some, find-erase, Option-cases,
  Bool-cases, inl, inr, ap, ◌∙◌,
}
use glogi_k.DevicesManager.Disjoint.{find-put}
use glogi_k.DeviceProperties.{new_device_properties}
use glogi_k.DevicesHandler.{DevicesHandler, World, set_device_properties}
use glogi_k.DevicesHandler.Containers.{
  put_started, initialize_and_start, start_device, stop_started, stop_device, unref_device,
  unplug_device, clear_devices,
}
use glogi_k.DevicesHandler.Containers.Status.{
  absent, started, stopped, Status, status_of, Disjoint, Sets, set_device_properties-containers,
  to_started-Sets, to_stopped-Sets, started-status, stopped-status, same-Sets,
}

initialize_and_start-Sets :
    (w : World) (notifications : Bool) (id : ℕ) (h : DevicesHandler)
    → Disjoint h
    → contains id h.stopped_devices ≡ false
    → Sets id started h (initialize_and_start w notifications id h).0
unfolding initialize_and_start put_started status_of is_some
initialize_and_start-Sets w notifications id h d e =
    let made = set_device_properties w id new_device_properties h in
    let (s, t) = set_device_properties-containers w id new_device_properties h in
    record {
      disjoint = λ j. ground (
        arith,
        d j,
        e,
        find-put j id made.1 made.0.started_devices,
        ap (find j) s,
        ap (find j) t,
      );
      status = λ j.
          ground
            (arith, d j, find-put j id made.1 made.0.started_devices, ap (find j) s, ap (find j) t);
    }

pub start_device-Sets :
    (w : World) (notifications : Bool) (id : ℕ) (h : DevicesHandler)
    → Disjoint h
    → Sets id started h (start_device w notifications id h).0
unfolding start_device is_some
start_device-Sets w notifications id h d = elim (Bool-cases (contains id h.started_devices)) [
  | inl t ↦ rw (t, start_device) (same-Sets id started h d (started-status h id t))
  | inr t ↦ elim (Option-cases (find id h.stopped_devices)) [
    | inl e ↦
        rw (t, e, start_device) (initialize_and_start-Sets w notifications id h d (ap is_some e))
    | inr (device, e) ↦ rw (t, e, start_device) (to_started-Sets id device h d)
  ]
]

stop_started-Sets :
    (notifications : Bool) (id : ℕ) (h : DevicesHandler)
    → Disjoint h
    → contains id h.started_devices ≡ true
    → Sets id stopped h (stop_started notifications id h).0
unfolding stop_started is_some
stop_started-Sets notifications id h d t = elim (Option-cases (find id h.started_devices)) [
  | inl e ↦ absurd (ground (arith, t, e))
  | inr (device, e) ↦ rw (e, stop_started) (to_stopped-Sets id device h d)
]

-- What two calls in a row do: the second decides.
Sets-Sets :
    (id : ℕ) (s t : Status) (h h₁ h₂ : DevicesHandler)
    → Sets id s h h₁
    → Sets id t h₁ h₂
    → Sets id t h h₂
Sets-Sets id s t h h₁ h₂ a b = record {
  disjoint = b.disjoint;
  status = λ j. ground (arith, a.status j, b.status j);
}

status-started :
    (h : DevicesHandler) (id : ℕ) → status_of h id ≡ started → contains id h.started_devices ≡ true
unfolding status_of
status-started h id e = ground (arith, e)

pub stop_device-Sets :
    (w : World) (notifications : Bool) (id : ℕ) (h : DevicesHandler)
    → Disjoint h
    → Sets id stopped h (stop_device w notifications id h).0
unfolding stop_device
stop_device-Sets w notifications id h d = elim (Bool-cases (contains id h.stopped_devices)) [
  | inl t ↦ rw (t, stop_device) (same-Sets id stopped h d (stopped-status h id d t))
  | inr t ↦ elim (Bool-cases (contains id h.started_devices)) [
    | inl s ↦ rw (t, s, stop_device) (stop_started-Sets notifications id h d s)
    | inr s ↦
        let h₁ = (start_device w false id h).0 in
        let a = start_device-Sets w false id h d in
        let is_started = status-started h₁ id (a.status id ∙ ground arith) in
        rw (t, s, stop_device)
          (Sets-Sets id started stopped h h₁ _ a
            (stop_started-Sets notifications id h₁ a.disjoint is_started))
  ]
]

unref_device-Sets :
    (id : ℕ) (h : DevicesHandler)
    → Disjoint h
    → contains id h.stopped_devices ≡ true
    → Sets id absent h (unref_device id h).0
unfolding unref_device status_of is_some
unref_device-Sets id h d t = elim (Option-cases (find id h.stopped_devices)) [
  | inl e ↦ absurd (ground (arith, t, e))
  | inr (device, e) ↦
      rw (e, unref_device)
        (record {
          disjoint = λ j. ground (arith, d j, find-erase j id h.stopped_devices);
          status = λ j. ground (arith, d j, t, find-erase j id h.stopped_devices);
        })
]

status-stopped :
    (h : DevicesHandler) (id : ℕ) → status_of h id ≡ stopped → contains id h.stopped_devices ≡ true
unfolding status_of
status-stopped h id e = ground (arith, e)

pub unplug_device-Sets :
    (w : World) (notifications : Bool) (id : ℕ) (h : DevicesHandler)
    → Disjoint h
    → Sets id absent h (unplug_device w notifications id h).0
unfolding unplug_device
unplug_device-Sets w notifications id h d = elim (Bool-cases (contains id h.stopped_devices)) [
  | inl t ↦ rw (t, unplug_device) (unref_device-Sets id h d t)
  | inr t ↦
      let h₁ = (stop_device w notifications id h).0 in
      let a = stop_device-Sets w notifications id h d in
      let is_stopped = status-stopped h₁ id (a.status id ∙ ground arith) in
      rw (t, unplug_device)
        (Sets-Sets id stopped absent h h₁ _ a (unref_device-Sets id h₁ a.disjoint is_stopped))
]

pub clear_devices-status :
    (w : World) (notifications : Bool) (h : DevicesHandler)
    → Disjoint (clear_devices w notifications h).0
      × ((j : ℕ) → status_of (clear_devices w notifications h).0 j ≡ absent)
unfolding clear_devices status_of is_some find
clear_devices-status w notifications h = (λ j. refl, λ j. refl)
