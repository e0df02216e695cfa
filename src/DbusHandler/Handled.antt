-- ===== src/DbusHandler/Handled.antt =====
-- What the handling of a signal about devices does to the status of each device.
use glogi_k.Prelude.{
  ℕ, Bool, true, false, ◌&&◌, List, [], ◌∷◌, some, ◌≡◌, refl, arith, ◌==◌, if◌then◌else◌, Map, find,
  contains, is_some, Bool-cases, inl, inr, ap, ◌∙◌,
}
use glogi_k.Banks.Full.{listed}
use glogi_k.DevicesManager.{status_unknown, get_device_status, map_keys}
use glogi_k.ClientsManager.{is_active}
use glogi_k.DevicesHandler.{DevicesHandler, World}
use glogi_k.DevicesHandler.Containers.Status.{
  Status, absent, started, stopped, status_of, Disjoint, Sets,
}
use glogi_k.DevicesHandler.Containers.Moves.{
  start_device-Sets, stop_device-Sets, unplug_device-Sets,
}
use glogi_k.DbusHandler.{
  System, Outside, Kind, kind_started, kind_stopped, kind_unplugged, with_client, run_devices,
  report_changed_state, device_status, is_expected, move_device, one_device, each_device,
  devices_signal, toggle_ready, set_daemon,
}
use glogi_k.DbusHandler.Stays.{Stays, one_device-Stays}

-- The status that a signal gives to a device.
unfoldable pub status_for : Kind → Status
status_for kind_started = started
status_for kind_stopped = stopped
status_for kind_unplugged = absent

move_device-Sets :
    (kind : Kind) (w : World) (device : ℕ) (h : DevicesHandler)
    → Disjoint h
    → Sets device (status_for kind) h (move_device kind w device h).0
unfolding move_device status_for
move_device-Sets kind_started w device h d = start_device-Sets w true device h d
move_device-Sets kind_stopped w device h d = stop_device-Sets w true device h d
move_device-Sets kind_unplugged w device h d = unplug_device-Sets w true device h d

-- The client of the service is known to the daemon.
pub record Known (id : ℕ) (s : System) : Type 0 where
  pub client_id : s.service.client_id ≡ some id
  pub connected : contains id s.daemon.connected_clients ≡ true

pub Stays-Known : (id : ℕ) (s s' : System) → Stays s s' → Known id s → Known id s'
Stays-Known id s s' a k = record {
  client_id = a.client_id ∙ k.client_id;
  connected = a.daemon.connected id ∙ k.connected;
}

-- What becomes of the device `j` when a signal about the devices of a list is handled.
abbrev after : Kind → Outside → List ℕ → System → ℕ → Status
after kind o devices s j =
    if listed j devices
      && (o.status_answered j && is_expected kind (get_device_status j s.daemon.devices_manager))
    then status_for kind
    else status_of s.service.devices j

pub record Handled (kind : Kind) (o : Outside) (devices : List ℕ) (s s' : System) : Type 0 where
  pub disjoint : Disjoint s'.service.devices
  pub status : (j : ℕ) → status_of s'.service.devices j ≡ after kind o devices s j

-- The answer of the daemon about a device.
asked :
    (device id : ℕ) (s : System)
    → Known id s
    → with_client s.service status_unknown (λ id'. device_status id' device s.daemon)
      ≡ get_device_status device s.daemon.devices_manager
unfolding with_client device_status
asked device id s k = ground (arith, k.client_id, k.connected)

abbrev answers : Kind → Outside → System → ℕ → Bool
answers kind o s j =
    o.status_answered j && is_expected kind (get_device_status j s.daemon.devices_manager)

one_device-Handled :
    (kind : Kind) (o : Outside) (device id : ℕ) (s : System)
    → Disjoint s.service.devices
    → Known id s
    → Handled kind o (device ∷ []) s (one_device kind o device s)
unfolding one_device run_devices listed
one_device-Handled kind o device id s d k =
    let test = ap (λ t. o.status_answered device && is_expected kind t) (asked device id s k) in
    elim (Bool-cases (answers kind o s device)) [
      | inl t ↦
          let yes_test = test ∙ t in
          let moved = move_device-Sets kind (o.world device) device s.service.devices d in
          rw (yes_test, one_device)
            (record {
              disjoint = moved.disjoint;
              status = λ j. moved.status j ∙ elim (Bool-cases (device == j)) [
                | inl q ↦
                    let eq : device ≡ j = ground (arith, q) in
                    ground (arith, q, t, ap (answers kind o s) eq)
                | inr q ↦ ground (arith, q)
              ];
            })
      | inr t ↦
          let no_test = test ∙ t in
          rw (no_test, one_device)
            (record {
              disjoint = d;
              status = λ j. elim (Bool-cases (device == j)) [
                | inl q ↦
                    let eq : device ≡ j = ground (arith, q) in
                    ground (arith, q, t, ap (answers kind o s) eq)
                | inr q ↦ ground (arith, q)
              ];
            })
    ]

each_device-Handled :
    (kind : Kind) (o : Outside) (devices : List ℕ) (id : ℕ) (s : System)
    → Disjoint s.service.devices
    → Known id s
    → Handled kind o devices s (each_device kind o devices s)
unfolding each_device listed
each_device-Handled kind o [] id s d k = record { disjoint = d; status = λ j. refl }
each_device-Handled kind o (device ∷ devices) id s d k =
    let s₁ = one_device kind o device s in
    let stays = one_device-Stays kind o device s in
    let first = one_device-Handled kind o device id s d k in
    let rest =
      each_device-Handled kind o devices id s₁ first.disjoint (Stays-Known id s s₁ stays k) in
    record {
      disjoint = rest.disjoint;
      status = λ j. ground (
        arith,
        rest.status j,
        first.status j,
        ap (λ m. o.status_answered j && is_expected kind (get_device_status j m))
            stays.daemon.devices_manager,
      );
    }

pub contains-listed {ℓ} : {A : Type ℓ} (j : ℕ) (m : Map A) → contains j m ≡ listed j (map_keys m)
unfolding is_some find listed map_keys
contains-listed j [] = refl
contains-listed j ((k, v) ∷ m) = ground (arith, contains-listed j m)

-- Reporting the state leaves the service's devices.
report_changed_state-devices :
    (o : Outside) (s : System) → (report_changed_state o s).service.devices ≡ s.service.devices
unfolding report_changed_state with_client set_daemon
report_changed_state-devices o s = ground arith

pub toggle_ready-devices :
    (o : Outside) (s : System) → (toggle_ready o s).service.devices ≡ s.service.devices
unfolding toggle_ready with_client set_daemon
toggle_ready-devices o s = ground arith

if-Handled :
    {kind : Kind} {o : Outside} {devices : List ℕ} (s : System) (b : Bool) (x y : System)
    → Handled kind o devices s x
    → Handled kind o devices s y
    → Handled kind o devices s (if b then x else y)
if-Handled s true x y hx hy = hx
if-Handled s false x y hx hy = hy

pub devices_signal-Handled :
    (kind : Kind) (o : Outside) (devices : List ℕ) (id : ℕ) (s : System)
    → Disjoint s.service.devices
    → Known id s
    → Handled kind o devices s (devices_signal kind o devices s)
unfolding devices_signal
devices_signal-Handled kind_started o devices id s d k =
    let s' = each_device kind_started o devices s in
    let handled = each_device-Handled kind_started o devices id s d k in
    let same_devices = report_changed_state-devices o s' in
    if-Handled _ (is_active s'.service.session_state) _ _
      (record {
        disjoint = λ j. rw same_devices (handled.disjoint j);
        status = λ j. ap (λ h. status_of h j) same_devices ∙ handled.status j;
      })
      handled
devices_signal-Handled kind_stopped o devices id s d k =
    each_device-Handled kind_stopped o devices id s d k
devices_signal-Handled kind_unplugged o devices id s d k =
    each_device-Handled kind_unplugged o devices id s d k
