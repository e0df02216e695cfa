-- ===== src/DbusHandler/Linked.antt =====
-- When the service holds itself registered, the daemon has its client: under which conditions this stays so.
use glogi_k.Prelude.{ℕ, Bool, true, false, List, [], ◌∷◌, Option, none, some, All, ◌≡◌, contains}
use glogi_k.ClientsManager.{SessionState, ClientsManager, is_active}
use glogi_k.DevicesHandler.Containers.{clear_devices, reload_device_configuration_file}
use glogi_k.DbusHandler.{
  System, Outside, set_daemon, set_service, run_devices, report_changed_state, register_with_daemon,
  update_session_state, initialize_devices, clear_and_unregister,
}
use glogi_k.DbusHandler.Events.{
  exit_later, pass_client_id, follow_registration, daemon_is_starting, daemon_is_stopping,
  session_changed, file_changed, Event, starting, stopping, changed, report_yourself, exiting,
  signalled, modified, devices_moved, step, step_all,
}
use glogi_k.DbusHandler.Stays.{
  run_devices-Stays, report_changed_state-Stays, devices_signal-Stays, initialize_devices-Stays,
}
use glogi_k.DbusHandler.Registered.{
  Linked, Answered, IsAnswered, Stays-Linked, if-Linked, chosen-Linked,
  unregister_with_daemon-Linked, register_with_daemon-Linked,
}

session_changed-Linked :
    (o : Outside) (s : System) (state : SessionState)
    → Linked s
    → Linked (report_changed_state o (set_service (record s.service { session_state = state }) s))
unfolding set_service
session_changed-Linked o s state l =
    let s' = record s { service = record s.service { session_state = state } } in
    let l' : Linked s' =
      λ r. let (id, k) = l r in (id, record { client_id = k.client_id; connected = k.connected }) in
    Stays-Linked s' (report_changed_state o s') (report_changed_state-Stays o s') l'

pass_client_id-Linked : (s : System) → Linked s → Linked (pass_client_id s)
unfolding pass_client_id set_service
pass_client_id-Linked s l =
    chosen-Linked s s.service.client_id _ l
      (λ id r. let (i, k) = l r in (i, record { client_id = k.client_id; connected = k.connected }))

exit_later-Linked : (s : System) → Linked s → Linked (exit_later s)
unfolding exit_later set_service
exit_later-Linked s l r =
    let (i, k) = l r in (i, record { client_id = k.client_id; connected = k.connected })

-- What follows a new state of the session, or the exception for want of one.
session-Linked :
    (o : Outside) (s other : System) (state : Option SessionState) (next : System → System)
    → Linked s
    → Linked other
    → ((s' : System) → Linked s' → Linked (next s'))
    → Linked
        (elim (elim state as (λ x. Option System) [
          | none ↦ none
          | some st ↦
              some
                (report_changed_state o (set_service (record s.service { session_state = st }) s))
        ])
          as (λ x. System) [ none ↦ other | some s' ↦ next s' ])
session-Linked o s other none next l l' h = l'
session-Linked o s other (some st) next l l' h = h _ (session_changed-Linked o s st l)

follow_registration-Linked :
    (o : Outside) (s : System) → Linked s → Linked (follow_registration o s)
unfolding follow_registration update_session_state
follow_registration-Linked o s l =
    session-Linked o s (exit_later s) o.session (λ s'. initialize_devices o (pass_client_id s')) l
      (exit_later-Linked s l)
      (λ s' l'.
        Stays-Linked (pass_client_id s') _ (initialize_devices-Stays o (pass_client_id s'))
          (pass_client_id-Linked s' l'))

daemon_is_starting-Linked :
    (o : Outside) (s : System) → Answered o → Linked s → Linked (daemon_is_starting o s)
unfolding daemon_is_starting
daemon_is_starting-Linked o s a l =
    let s' = register_with_daemon o s in
    let l' = register_with_daemon-Linked o s a l in
    if-Linked _ _ _ l (
      if-Linked s'.service.register_status _ _ (follow_registration-Linked o s' l')
        (exit_later-Linked s' l'))

clear_and_unregister-Linked :
    (notifications : Bool) (o : Outside) (s : System)
    → Answered o
    → Linked s
    → Linked (clear_and_unregister notifications o s)
unfolding clear_and_unregister
clear_and_unregister-Linked notifications o s a l =
    let clear = clear_devices (o.world 0) notifications in
    let s' = run_devices o clear s in
    if-Linked _ _ _
      (unregister_with_daemon-Linked o s' a (Stays-Linked s s' (run_devices-Stays o clear s) l)) l

file_changed-Linked :
    (o : Outside) (device : ℕ) (s : System) → Linked s → Linked (file_changed o device s)
unfolding file_changed
file_changed-Linked o device s l =
    let reload = reload_device_configuration_file (o.world device) device in
    let s' = run_devices o reload s in
    let l' = Stays-Linked s s' (run_devices-Stays o reload s) l in
    if-Linked (is_active s'.service.session_state) _ _
      (Stays-Linked s' _ (report_changed_state-Stays o s') l') l'

step-Linked : (e : Event) (s : System) → IsAnswered e → Linked s → Linked (step e s)
unfolding step daemon_is_stopping session_changed update_session_state set_daemon
step-Linked (starting o) s a l = daemon_is_starting-Linked o s a l
step-Linked (stopping o) s a l = clear_and_unregister-Linked true o s a l
step-Linked (changed o) s a l = session-Linked o s s o.session (λ s'. s') l l (λ s' l'. l')
step-Linked (report_yourself o) s a l = Stays-Linked s _ (report_changed_state-Stays o s) l
step-Linked (exiting o) s a l = clear_and_unregister-Linked false o s a l
step-Linked (signalled kind o devices) s a l =
    Stays-Linked s _ (devices_signal-Stays kind o devices s) l
step-Linked (modified o device) s a l = file_changed-Linked o device s l
step-Linked (devices_moved m) s a l =
    λ r. let (i, k) = l r in (i, record { client_id = k.client_id; connected = k.connected })

-- What others do drops no client of the daemon, and the answer to UnregisterClient comes.
abbrev pub AreAnswered : List ((ClientsManager → ClientsManager) × Event) → Type 0
AreAnswered = All (λ (p : (ClientsManager → ClientsManager) × Event).
    ((j : ℕ) (m : ClientsManager)
      → contains j m.connected_clients ≡ true
      → contains j (p.0 m).connected_clients ≡ true)
    × IsAnswered p.1)

others-Linked :
    (others : ClientsManager → ClientsManager) (s : System)
    → ((j : ℕ) (m : ClientsManager)
        → contains j m.connected_clients ≡ true
        → contains j (others m).connected_clients ≡ true)
    → Linked s
    → Linked (set_daemon (others s.daemon) s)
unfolding set_daemon
others-Linked others s h l r =
    let (id, k) = l r in
    (id, record { client_id = k.client_id; connected = h id s.daemon k.connected })

-- Over any events of this service and steps of the daemon with its devices, whatever calls fail or
-- lose their answers, as long as no answer to an UnregisterClient that the daemon served is lost and
-- what others do to the daemon before each event drops none of its clients: a service that holds
-- itself registered has an identifier, and the daemon has a client of that identifier, if this holds
-- before.
pub step_all-Linked :
    (es : List ((ClientsManager → ClientsManager) × Event)) (s : System)
    → AreAnswered es
    → Linked s
    → Linked (step_all es s)
unfolding step_all
step_all-Linked [] s a l = l
step_all-Linked ((others, e) ∷ es) s a l =
    step_all-Linked es _ a.1 (step-Linked e _ (a.0).1 (others-Linked others s (a.0).0 l))
