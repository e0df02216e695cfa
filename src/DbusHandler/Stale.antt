-- ===== src/DbusHandler/Stale.antt =====
-- A service that the daemon has let go, and that does not know.
use glogi_k.Prelude.{
  ℕ, Bool, true, false, List, [], ◌∷◌, Option, none, some, All, ◌≡◌, refl, arith, if◌then◌else◌,
  find, contains, is_some, Option-cases, inl, inr, ap, ◌∙◌, sym, subst,
}
use glogi_k.ClientsManager.{SessionState, ClientsManager, is_active, refuse, unregister_client}
use glogi_k.ClientsManager.Register.{unregister_client-contains}
use glogi_k.DevicesHandler.Containers.{clear_devices, reload_device_configuration_file}
use glogi_k.DbusHandler.{
  System, Delivery, replied, reply_lost, not_sent, Outside, remote, with_client, set_daemon,
  set_service, take_leave, run_devices, report_changed_state, update_session_state,
  unregister_with_daemon, clear_and_unregister,
}
use glogi_k.DbusHandler.Events.{
  daemon_is_starting, daemon_is_stopping, session_changed, file_changed, Event, starting, stopping,
  changed, report_yourself, exiting, signalled, modified, devices_moved, step, step_all,
}
use glogi_k.DbusHandler.Stays.{
  Stays, run_devices-Stays, report_changed_state-Stays, devices_signal-Stays,
}
use glogi_k.DbusHandler.Handled.{Known, Stays-Known}

-- The service holds itself registered with a client that the daemon does not have.
pub record Stale (id : ℕ) (s : System) : Type 0 where
  pub registered : s.service.register_status ≡ true
  pub client_id : s.service.client_id ≡ some id
  pub unknown : contains id s.daemon.connected_clients ≡ false

-- What others do to the daemon does not give it the client.
abbrev pub AreWithout : ℕ → List ((ClientsManager → ClientsManager) × Event) → Type 0
AreWithout id = All (λ (p : (ClientsManager → ClientsManager) × Event).
    (m : ClientsManager)
    → contains id m.connected_clients ≡ false
    → contains id (p.0 m).connected_clients ≡ false)

Stays-Stale : (id : ℕ) (s s' : System) → Stays s s' → Stale id s → Stale id s'
Stays-Stale id s s' a t = record {
  registered = a.register_status ∙ t.registered;
  client_id = a.client_id ∙ t.client_id;
  unknown = a.daemon.connected id ∙ t.unknown;
}

if-Stale :
    (id : ℕ) (b : Bool) (x y : System) → Stale id x → Stale id y → Stale id (if b then x else y)
if-Stale id true x y hx hy = hx
if-Stale id false x y hx hy = hy

-- The daemon does not let go a client that it does not have.
take_leave-unknown :
    (d : Delivery) (id : ℕ) (s : System)
    → find id s.daemon.connected_clients ≡ none
    → take_leave (remote d (unregister_client id s.daemon) s.daemon) s ≡ s
unfolding remote take_leave set_daemon unregister_client refuse
take_leave-unknown replied id s e = rw (e, unregister_client) refl
take_leave-unknown reply_lost id s e = rw (e, unregister_client) refl
take_leave-unknown not_sent id s e = refl

unregister_with_daemon-Stale :
    (o : Outside) (id : ℕ) (s : System) → Stale id s → Stale id (unregister_with_daemon o s)
unfolding unregister_with_daemon with_client is_some
unregister_with_daemon-Stale o id s t = elim (Option-cases (find id s.daemon.connected_clients)) [
  | inl e ↦
      if-Stale id s.service.register_status _ _
        (subst
          (λ (c : Option ℕ). Stale id (elim c as (λ x. System) [
            | none ↦ s
            | some i ↦
                take_leave (remote o.unregister_delivery (unregister_client i s.daemon) s.daemon) s
          ]))
          (sym t.client_id)
          (subst (Stale id) (sym (take_leave-unknown o.unregister_delivery id s e)) t))
        t
  | inr (client, e) ↦ absurd (ground (arith, e, t.unknown))
]

daemon_is_starting-registered :
    (o : Outside) (s : System) → s.service.register_status ≡ true → daemon_is_starting o s ≡ s
unfolding daemon_is_starting
daemon_is_starting-registered o s r = ground (arith, r)

clear_and_unregister-Stale :
    (notifications : Bool) (o : Outside) (id : ℕ) (s : System)
    → Stale id s
    → Stale id (clear_and_unregister notifications o s)
unfolding clear_and_unregister
clear_and_unregister-Stale notifications o id s t =
    let clear = clear_devices (o.world 0) notifications in
    let s' = run_devices o clear s in
    if-Stale id _ _ _
      (unregister_with_daemon-Stale o id s' (Stays-Stale id s s' (run_devices-Stays o clear s) t)) t

reported-Stale :
    (o : Outside) (id : ℕ) (s : System) (state : SessionState)
    → Stale id s
    → Stale id (report_changed_state o (set_service (record s.service { session_state = state }) s))
unfolding set_service
reported-Stale o id s state t =
    let s' = record s { service = record s.service { session_state = state } } in
    Stays-Stale id s' _ (report_changed_state-Stays o s')
      (record { registered = t.registered; client_id = t.client_id; unknown = t.unknown })

session-Stale :
    (o : Outside) (id : ℕ) (s : System) (state : Option SessionState)
    → Stale id s
    → Stale id
        (elim (elim state as (λ x. Option System) [
          | none ↦ none
          | some st ↦
              some
                (report_changed_state o (set_service (record s.service { session_state = st }) s))
        ])
          as (λ x. System) [ none ↦ s | some s' ↦ s' ])
session-Stale o id s none t = t
session-Stale o id s (some st) t = reported-Stale o id s st t

file_changed-Stale :
    (o : Outside) (device id : ℕ) (s : System) → Stale id s → Stale id (file_changed o device s)
unfolding file_changed
file_changed-Stale o device id s t =
    let reload = reload_device_configuration_file (o.world device) device in
    let s' = run_devices o reload s in
    let t' = Stays-Stale id s s' (run_devices-Stays o reload s) t in
    if-Stale id (is_active s'.service.session_state) _ _
      (Stays-Stale id s' _ (report_changed_state-Stays o s') t') t'

step-Stale : (e : Event) (id : ℕ) (s : System) → Stale id s → Stale id (step e s)
unfolding step daemon_is_stopping session_changed update_session_state set_daemon
step-Stale (starting o) id s t = rw (daemon_is_starting-registered o s t.registered) t
step-Stale (stopping o) id s t = clear_and_unregister-Stale true o id s t
step-Stale (changed o) id s t = session-Stale o id s o.session t
step-Stale (report_yourself o) id s t = Stays-Stale id s _ (report_changed_state-Stays o s) t
step-Stale (exiting o) id s t = clear_and_unregister-Stale false o id s t
step-Stale (signalled kind o devices) id s t =
    Stays-Stale id s _ (devices_signal-Stays kind o devices s) t
step-Stale (modified o device) id s t = file_changed-Stale o device id s t
step-Stale (devices_moved m) id s t = record {
  registered = t.registered;
  client_id = t.client_id;
  unknown = t.unknown;
}

step_all-Stale :
    (es : List ((ClientsManager → ClientsManager) × Event)) (id : ℕ) (s : System)
    → AreWithout id es
    → Stale id s
    → Stale id (step_all es s)
unfolding step_all set_daemon
step_all-Stale [] id s w t = t
step_all-Stale ((others, e) ∷ es) id s (w, ws) t =
    let s' : System = record s { daemon = others s.daemon } in
    let t' : Stale id s' = record {
      registered = t.registered;
      client_id = t.client_id;
      unknown = w s.daemon t.unknown;
    } in
    step_all-Stale es id (step e s') ws (step-Stale e id s' t')

unregister_lost :
    (o : Outside) (id : ℕ) (s : System)
    → s.service.register_status ≡ true
    → Known id s
    → o.unregister_delivery ≡ reply_lost
    → unregister_with_daemon o s ≡ set_daemon (unregister_client id s.daemon).state s
unfolding unregister_with_daemon with_client remote take_leave set_daemon
unregister_lost o id s r k e = ground (arith, r, k.client_id, e)

daemon_is_stopping_lem :
    (o : Outside) (s : System)
    → s.service.register_status ≡ true
    → daemon_is_stopping o s
      ≡ unregister_with_daemon o (run_devices o (clear_devices (o.world 0) true) s)
unfolding daemon_is_stopping clear_and_unregister
daemon_is_stopping_lem o s r =
    ap
      (λ (b : Bool).
        if b
        then unregister_with_daemon o (run_devices o (clear_devices (o.world 0) true) s)
        else s)
      r

stopped-Stale :
    (o : Outside) (id : ℕ) (s : System)
    → s.service.register_status ≡ true
    → Known id s
    → o.unregister_delivery ≡ reply_lost
    → Stale id (daemon_is_stopping o s)
unfolding set_daemon
stopped-Stale o id s r k e =
    let clear = clear_devices (o.world 0) true in
    let cleared = run_devices o clear s in
    let stays = run_devices-Stays o clear s in
    let k' = Stays-Known id s cleared stays k in
    let r' = stays.register_status ∙ r in
    let gone = unregister_client-contains id id cleared.daemon in
    rw (daemon_is_stopping_lem o s r) (
      rw (unregister_lost o id cleared r' k' e)
        (record { registered = r'; client_id = k'.client_id; unknown = gone ∙ ground arith }))

-- The daemon stops, it serves UnregisterClient of a registered service, and the answer is lost. Over
-- any later events of the service, before each of which others may do to the daemon what does not give
-- it a client of that identifier, be it their calls or a new start of it: the service still holds
-- itself registered with the client that the daemon does not have, and when the daemon starts again it
-- does nothing, so it does not register.
pub daemon_is_stopping-Stale :
    (o : Outside) (id : ℕ) (later : List ((ClientsManager → ClientsManager) × Event)) (s : System)
    → s.service.register_status ≡ true
    → Known id s
    → o.unregister_delivery ≡ reply_lost
    → AreWithout id later
    → Stale id (step_all later (daemon_is_stopping o s))
      × ((o' : Outside)
          → daemon_is_starting o' (step_all later (daemon_is_stopping o s))
            ≡ step_all later (daemon_is_stopping o s))
daemon_is_stopping-Stale o id later s r k e w =
    let t = step_all-Stale later id (daemon_is_stopping o s) w (stopped-Stale o id s r k e) in
    (
      t,
      λ o'. daemon_is_starting-registered o' (step_all later (daemon_is_stopping o s)) t.registered,
    )
