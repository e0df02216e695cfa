-- ===== src/DbusHandler/Registered.antt =====
-- Registering and unregistering keep the link between the service and its client in the daemon.
use glogi_k.Prelude.{
  if-holds, ℕ, Bool, true, false, Option, none, some, ◌≡◌, ◌⊎◌, refl, arith, if◌then◌else◌, find,
  contains, is_some, Option-cases, inl, inr, ◌∙◌, sym,
}
use glogi_k.ClientsManager.{
  ClientsManager, Reply, registered, already_registered, internal_error, refuse, put_clients,
  count_clients, add_client, unregister_client, register_client,
}
use glogi_k.DbusHandler.{
  System, Delivery, replied, reply_lost, not_sent, Outside, remote, with_client, set_daemon,
  set_service, set_undefined, take_leave, unregister_with_daemon, take_reply, register_with_daemon,
}
use glogi_k.DbusHandler.Events.{
  Event, starting, stopping, changed, report_yourself, exiting, signalled, modified, devices_moved,
}
use glogi_k.DbusHandler.Stays.{Stays}
use glogi_k.DbusHandler.Handled.{Known, Stays-Known}

abbrev pub Linked : System → Type 0
Linked s = s.service.register_status ≡ true → (id : ℕ) × Known id s

-- The answer to UnregisterClient does not get lost on its way.
abbrev pub Answered : Outside → Type 0
Answered o = (o.unregister_delivery ≡ replied) ⊎ (o.unregister_delivery ≡ not_sent)

abbrev pub IsAnswered : Event → Type 0
IsAnswered (starting o) = Answered o
IsAnswered (stopping o) = Answered o
IsAnswered (exiting o) = Answered o
IsAnswered (changed o) = true ≡ true
IsAnswered (report_yourself o) = true ≡ true
IsAnswered (signalled kind o devices) = true ≡ true
IsAnswered (modified o device) = true ≡ true
IsAnswered (devices_moved m) = true ≡ true

pub Stays-Linked : (s s' : System) → Stays s s' → Linked s → Linked s'
Stays-Linked s s' a l r =
    let (id, k) = l (sym a.register_status ∙ r) in (id, Stays-Known id s s' a k)

pub if-Linked : (b : Bool) (x y : System) → Linked x → Linked y → Linked (if b then x else y)
if-Linked true x y hx hy = hx
if-Linked false x y hx hy = hy

pub chosen-Linked :
    (s : System) (client_id : Option ℕ) (f : ℕ → System)
    → Linked s
    → ((id : ℕ) → Linked (f id))
    → Linked (elim client_id as (λ x. System) [ none ↦ s | some id ↦ f id ])
chosen-Linked s none f l h = l
chosen-Linked s (some id) f l h = h id

take_leave-Linked :
    (d : Delivery) (id : ℕ) (s : System)
    → (d ≡ replied) ⊎ (d ≡ not_sent)
    → Linked s
    → Linked (take_leave (remote d (unregister_client id s.daemon) s.daemon) s)
unfolding remote take_leave set_daemon set_undefined unregister_client refuse
take_leave-Linked replied id s a l = elim (Option-cases (find id s.daemon.connected_clients)) [
  | inl e ↦ rw (e, unregister_client) l
  | inr (client, e) ↦ rw (e, unregister_client) (λ r. absurd (ground (arith, r)))
]
take_leave-Linked reply_lost id s (inl a) l = absurd (ground (arith, a))
take_leave-Linked reply_lost id s (inr a) l = absurd (ground (arith, a))
take_leave-Linked not_sent id s a l = l

pub unregister_with_daemon-Linked :
    (o : Outside) (s : System) → Answered o → Linked s → Linked (unregister_with_daemon o s)
unfolding unregister_with_daemon with_client
unregister_with_daemon-Linked o s a l =
    if-Linked _ _ _
      (chosen-Linked s s.service.client_id _ l
        (λ id. take_leave-Linked o.unregister_delivery id s a l))
      l

-- A registration that succeeds is of a client that the daemon has then.
register_client-registered :
    (path id j : ℕ) (m : ClientsManager)
    → (register_client path id m).result ≡ registered j
    → contains j (register_client path id m).state.connected_clients ≡ true
unfolding register_client add_client put_clients count_clients find is_some
register_client-registered path id j m e = ground (arith, e)

take_reply-Linked :
    (o : Outside) (reply : Option Reply) (s : System)
    → Answered o
    → s.service.register_status ≡ false
    → ((id : ℕ) → reply ≡ some (registered id) → contains id s.daemon.connected_clients ≡ true)
    → Linked (take_reply o reply s)
unfolding take_reply set_service
take_reply-Linked o none s a u h = λ r. absurd (ground (arith, r, u))
take_reply-Linked o (some already_registered) s a u h = λ r. absurd (ground (arith, r, u))
take_reply-Linked o (some internal_error) s a u h = λ r. absurd (ground (arith, r, u))
take_reply-Linked o (some (registered id)) s a u h =
    let s' = record s {
      service = record s.service { client_id = some id; register_status = true };
    } in
    let l : Linked s' = λ r. (id, record { client_id = refl; connected = h id refl }) in
    if-Linked o.same_version _ _ l (unregister_with_daemon-Linked o s' a l)

remote-register :
    (d : Delivery) (path new_id id : ℕ) (m : ClientsManager)
    → (remote d (register_client path new_id m) m).1 ≡ some (registered id)
    → contains id (remote d (register_client path new_id m) m).0.connected_clients ≡ true
unfolding remote
remote-register replied path new_id id m e =
    register_client-registered path new_id id m (ground (arith, e))
remote-register reply_lost path new_id id m e = absurd (ground (arith, e))
remote-register not_sent path new_id id m e = absurd (ground (arith, e))

pub register_with_daemon-Linked :
    (o : Outside) (s : System) → Answered o → Linked s → Linked (register_with_daemon o s)
unfolding register_with_daemon set_daemon
register_with_daemon-Linked o s a l =
    let m = s.daemon in
    let path = s.service.session_object_path in
    let done = remote o.register_delivery (register_client path o.new_client_id m) m in
    if-holds Linked s.service.register_status _ _ (λ t. l)
      (λ t.
        take_reply-Linked o done.1 (set_daemon done.0 s) a t
          (λ id e. remote-register o.register_delivery path o.new_client_id id m e))
