-- ===== src/DbusHandler/Synchronized.antt =====
-- After `initializeDevices` the service has the status of each device that the daemon has.
use glogi_k.Prelude.{ℕ, Bool, true, ◌&&◌, [], ◌≡◌, arith, if◌then◌else◌, ap, ◌∙◌}
use glogi_k.Banks.Full.{listed}
use glogi_k.DevicesManager.{
  DevicesManager, DeviceStatus, status_unknown, status_started, status_stopped, status_unplugged,
  get_device_status, map_keys,
}
use glogi_k.DevicesManager.Disjoint
use glogi_k.DevicesHandler.Containers.Status.{Status, started, stopped, status_of, Disjoint}
use glogi_k.DbusHandler.{
  System, replied, Outside, kind_started, kind_stopped, with_client, started_list, stopped_list,
  is_expected, start_listed, stop_listed, toggle_ready, initialize_devices, is_replied,
}
use glogi_k.DbusHandler.Stays.{Stays-Stays, start_listed-Stays, toggle_ready-Stays}
use glogi_k.DbusHandler.Handled.{
  status_for, Known, Stays-Known, Handled, contains-listed, toggle_ready-devices,
  devices_signal-Handled,
}

-- The two lists of the daemon.
listed_ids :
    (id : ℕ) (s : System)
    → Known id s
    → (with_client s.service [] (λ i. started_list i s.daemon)
        ≡ map_keys s.daemon.devices_manager.started_devices)
      × (with_client s.service [] (λ i. stopped_list i s.daemon)
          ≡ map_keys s.daemon.devices_manager.stopped_devices)
unfolding with_client started_list stopped_list
listed_ids id s k =
    (ground (arith, k.client_id, k.connected), ground (arith, k.client_id, k.connected))

start_listed-Handled :
    (o : Outside) (id : ℕ) (s : System)
    → o.started_delivery ≡ replied
    → Disjoint s.service.devices
    → Known id s
    → Handled kind_started o
        (map_keys s.daemon.devices_manager.started_devices)
        s
        (start_listed o s)
unfolding start_listed is_replied
start_listed-Handled o id s e d k =
    let ids = (listed_ids id s k).0 in
    let replies = ap is_replied e in
    rw (replies, start_listed)
      (rw ids (
        devices_signal-Handled kind_started o (map_keys s.daemon.devices_manager.started_devices) id
          s d k))

stop_listed-Handled :
    (o : Outside) (id : ℕ) (s : System)
    → o.stopped_delivery ≡ replied
    → Disjoint s.service.devices
    → Known id s
    → Handled kind_stopped o (map_keys s.daemon.devices_manager.stopped_devices) s (stop_listed o s)
unfolding stop_listed is_replied
stop_listed-Handled o id s e d k =
    let ids = (listed_ids id s k).1 in
    let replies = ap is_replied e in
    rw (replies, stop_listed)
      (rw ids (
        devices_signal-Handled kind_stopped o (map_keys s.daemon.devices_manager.stopped_devices) id
          s d k))

-- The status of a device in the service when it follows the daemon's; before, it was `p`.
unfoldable pub mirrored : DeviceStatus → Status → Status
mirrored status_started p = started
mirrored status_stopped p = stopped
mirrored status_unplugged p = p
mirrored status_unknown p = p

initialize_devices_lem :
    (o : Outside) (s : System)
    → s.service.register_status ≡ true
    → initialize_devices o s ≡ stop_listed o (toggle_ready o (start_listed o s))
unfolding initialize_devices
initialize_devices_lem o s r =
    ap (λ (b : Bool). if b then stop_listed o (toggle_ready o (start_listed o s)) else s) r

-- Two signals, about the started and about the stopped devices, leave what `mirrored` says.
both-mirrored :
    (o : Outside) (j : ℕ) (m : DevicesManager) (p q : Status)
    → Disjoint.Disjoint m
    → o.status_answered j ≡ true
    → q ≡ (
        if listed j (map_keys m.started_devices)
          && (o.status_answered j && is_expected kind_started (get_device_status j m))
        then status_for kind_started
        else p)
    → (if listed j (map_keys m.stopped_devices)
          && (o.status_answered j && is_expected kind_stopped (get_device_status j m))
        then status_for kind_stopped
        else q)
      ≡ mirrored (get_device_status j m) p
unfolding get_device_status mirrored is_expected status_for
both-mirrored o j m p q d a e =
    ground
      (arith, d j, a, e, contains-listed j m.started_devices, contains-listed j m.stopped_devices)

-- A service whose client the daemon knows gets, by `initializeDevices`, the status of each device
-- that the daemon has started or stopped, and every other device keeps the status that it had. The
-- lists and the status of each device are answered; the other calls may fail. Neither side has a
-- device started and stopped at once before, and then the service has none.
pub initialize_devices-mirrored :
    (o : Outside) (id : ℕ) (s : System)
    → s.service.register_status ≡ true
    → Known id s
    → Disjoint s.service.devices
    → Disjoint.Disjoint s.daemon.devices_manager
    → o.started_delivery ≡ replied
    → o.stopped_delivery ≡ replied
    → ((j : ℕ) → o.status_answered j ≡ true)
    → Disjoint (initialize_devices o s).service.devices
      × ((j : ℕ)
          → status_of (initialize_devices o s).service.devices j
            ≡ mirrored
                (get_device_status j s.daemon.devices_manager)
                (status_of s.service.devices j))
initialize_devices-mirrored o id s r k d dd e₁ e₂ answered =
    let s₁ = start_listed o s in
    let s₂ = toggle_ready o s₁ in
    let a = start_listed-Stays o s in
    let b = Stays-Stays s s₁ s₂ a (toggle_ready-Stays o s₁) in
    let first = start_listed-Handled o id s e₁ d k in
    let same_devices = toggle_ready-devices o s₁ in
    let d₂ : Disjoint s₂.service.devices = λ j. rw same_devices (first.disjoint j) in
    let second = stop_listed-Handled o id s₂ e₂ d₂ (Stays-Known id s s₂ b k) in
    rw (initialize_devices_lem o s r) (
      second.disjoint,
      λ j.
          let m = s.daemon.devices_manager in
          let p = status_of s.service.devices j in
          let q = status_of s₂.service.devices j in
          second.status j
          ∙ ap
              (λ (n : DevicesManager).
                if listed j (map_keys n.stopped_devices)
                  && (o.status_answered j && is_expected kind_stopped (get_device_status j n))
                then status_for kind_stopped
                else q)
              b.daemon.devices_manager
          ∙ both-mirrored o j m p q dd (answered j)
              (ap (λ h. status_of h j) same_devices ∙ first.status j),
    )
