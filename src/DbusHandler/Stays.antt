-- ===== src/DbusHandler/Stays.antt =====
-- Most of what the service does keeps its registration: it has the same identifier, the daemon has
-- the same clients, and the daemon's devices are where they were.
use glogi_k.Prelude.{
  ℕ, Bool, true, false, List, [], ◌∷◌, Option, none, some, ◌≡◌, refl, if◌then◌else◌, ◌∙◌,
}
use glogi_k.ClientsManager.{ClientsManager, update_client_state, toggle_client_ready_propertie}
use glogi_k.DevicesHandler.{DevicesHandler, Effect}
use glogi_k.DbusHandler.{
  System, Outside, Kind, kind_started, kind_stopped, kind_unplugged, remote, with_client,
  set_daemon, run_devices, report_changed_state, one_device, each_device, devices_signal,
  start_listed, stop_listed, toggle_ready, initialize_devices,
}
use glogi_k.DbusHandler.Same.{
  Same, same, Same-Same, update_client_state-Same, toggle_client_ready_propertie-Same,
  serve_calls-Same, remote-Same,
}

-- A step of the service that keeps its registration, its session and the daemon's side.
pub record Stays (s s' : System) : Type 0 where
  pub daemon : Same s.daemon s'.daemon
  pub client_id : s'.service.client_id ≡ s.service.client_id
  pub register_status : s'.service.register_status ≡ s.service.register_status
  pub session_state : s'.service.session_state ≡ s.service.session_state

pub stays : (s : System) → Stays s s
stays s = record {
  daemon = same s.daemon;
  client_id = refl;
  register_status = refl;
  session_state = refl;
}

pub Stays-Stays : (s s₁ s₂ : System) → Stays s s₁ → Stays s₁ s₂ → Stays s s₂
Stays-Stays s s₁ s₂ a b = record {
  daemon = Same-Same s.daemon s₁.daemon s₂.daemon a.daemon b.daemon;
  client_id = b.client_id ∙ a.client_id;
  register_status = b.register_status ∙ a.register_status;
  session_state = b.session_state ∙ a.session_state;
}

-- A state that a test chooses.
pub if-Stays :
    (s : System) (b : Bool) (x y : System) → Stays s x → Stays s y → Stays s (if b then x else y)
if-Stays s true x y hx hy = hx
if-Stays s false x y hx hy = hy

chosen-Stays :
    (s : System) (client_id : Option ℕ) (f : ℕ → System)
    → ((id : ℕ) → Stays s (f id))
    → Stays s (elim client_id as (λ x. System) [ none ↦ s | some id ↦ f id ])
chosen-Stays s none f h = stays s
chosen-Stays s (some id) f h = h id

-- A call with the client's identifier, if it has one.
with_client-Stays :
    (s : System) (f : ℕ → System)
    → ((id : ℕ) → Stays s (f id))
    → Stays s (with_client s.service s f)
unfolding with_client
with_client-Stays s f h = chosen-Stays s s.service.client_id f h

set_daemon-Stays : (s : System) (m : ClientsManager) → Same s.daemon m → Stays s (set_daemon m s)
unfolding set_daemon
set_daemon-Stays s m h = record {
  daemon = h;
  client_id = refl;
  register_status = refl;
  session_state = refl;
}

pub run_devices-Stays :
    (o : Outside) (f : DevicesHandler → DevicesHandler × List Effect) (s : System)
    → Stays s (run_devices o f s)
unfolding run_devices
run_devices-Stays o f s = record {
  daemon = serve_calls-Same o.reaches s.service.devices.client_id _ s.daemon;
  client_id = refl;
  register_status = refl;
  session_state = refl;
}

pub report_changed_state-Stays : (o : Outside) (s : System) → Stays s (report_changed_state o s)
unfolding report_changed_state
report_changed_state-Stays o s =
    let asked = λ (id : ℕ). update_client_state id s.service.session_state s.daemon in
    if-Stays s _ _ _
      (with_client-Stays s (λ id. set_daemon (remote o.update_delivery (asked id) s.daemon).0 s)
        (λ id. set_daemon-Stays s _ (
          remote-Same o.update_delivery (asked id) s.daemon
            (update_client_state-Same id s.service.session_state s.daemon))))
      (stays s)

pub one_device-Stays :
    (kind : Kind) (o : Outside) (device : ℕ) (s : System) → Stays s (one_device kind o device s)
unfolding one_device
one_device-Stays kind o device s = if-Stays s _ _ _ (run_devices-Stays o _ s) (stays s)

each_device-Stays :
    (kind : Kind) (o : Outside) (devices : List ℕ) (s : System)
    → Stays s (each_device kind o devices s)
unfolding each_device
each_device-Stays kind o [] s = stays s
each_device-Stays kind o (device ∷ devices) s =
    Stays-Stays s (one_device kind o device s) _ (one_device-Stays kind o device s)
      (each_device-Stays kind o devices (one_device kind o device s))

pub devices_signal-Stays :
    (kind : Kind) (o : Outside) (devices : List ℕ) (s : System)
    → Stays s (devices_signal kind o devices s)
unfolding devices_signal
devices_signal-Stays kind_started o devices s =
    let s' = each_device kind_started o devices s in
    let moved = each_device-Stays kind_started o devices s in
    if-Stays s _ _ _
      (Stays-Stays s s' (report_changed_state o s') moved (report_changed_state-Stays o s')) moved
devices_signal-Stays kind_stopped o devices s = each_device-Stays kind_stopped o devices s
devices_signal-Stays kind_unplugged o devices s = each_device-Stays kind_unplugged o devices s

pub start_listed-Stays : (o : Outside) (s : System) → Stays s (start_listed o s)
unfolding start_listed
start_listed-Stays o s = if-Stays s _ _ _ (devices_signal-Stays kind_started o _ s) (stays s)

pub stop_listed-Stays : (o : Outside) (s : System) → Stays s (stop_listed o s)
unfolding stop_listed
stop_listed-Stays o s = if-Stays s _ _ _ (devices_signal-Stays kind_stopped o _ s) (stays s)

pub toggle_ready-Stays : (o : Outside) (s : System) → Stays s (toggle_ready o s)
unfolding toggle_ready
toggle_ready-Stays o s =
    let asked = λ (id : ℕ). toggle_client_ready_propertie id s.daemon in
    with_client-Stays s (λ id. set_daemon (remote o.toggle_delivery (asked id) s.daemon).0 s)
      (λ id. set_daemon-Stays s _ (
        remote-Same o.toggle_delivery (asked id) s.daemon
          (toggle_client_ready_propertie-Same id s.daemon)))

pub initialize_devices-Stays : (o : Outside) (s : System) → Stays s (initialize_devices o s)
unfolding initialize_devices
initialize_devices-Stays o s =
    let s₁ = start_listed o s in
    let s₂ = toggle_ready o s₁ in
    if-Stays s _ _ _
      (Stays-Stays s s₁ (stop_listed o s₂) (start_listed-Stays o s)
        (Stays-Stays s₁ s₂ (stop_listed o s₂) (toggle_ready-Stays o s₁) (stop_listed-Stays o s₂)))
      (stays s)
