-- ===== src/ClientsManager/Joining.antt =====
-- Clients that come and go, and their states, keep the count of active users.
use glogi_k.Prelude.{
  ℕ, ◌+◌, ◌-◌, ◌%◌, ◌^◌, Bool, true, false, List, [], ◌∷◌, ◌≡◌, ap, ◌∙◌, sym, arith, if◌then◌else◌,
  find, contains, assign, erase, Unique, erase-Unique, assign-Unique, Option-cases, Bool-cases, inl,
  inr,
}
use glogi_k.ClientsManager.{
  SessionState, ClientsManager, Done, is_active, refuse, decrease_active, increase_active,
  new_client, put_clients, count_clients, unregister_client, unregister_all, lost_clients,
  path_is_taken, add_client, register_client, change_active, update_client_state, is_handled,
}
use glogi_k.ClientsManager.Counted.{
  one_if, count_active, Counted, count_active-erase, count_active-assign, count_active-uncheck_all,
  uncheck_all-Unique,
}

counter_down :
    (n c c' : ℕ) → n ≡ c % 2 ^ 32 → c' + 1 ≡ c → (n + (2 ^ 32 - 1)) % 2 ^ 32 ≡ c' % 2 ^ 32
counter_down n c c' h e = omega arith

counter_up : (n c c' : ℕ) → n ≡ c % 2 ^ 32 → c' ≡ c + 1 → (n + 1) % 2 ^ 32 ≡ c' % 2 ^ 32
counter_up n c c' h e = omega arith

pub unregister_client-Counted :
    (id : ℕ) (m : ClientsManager) → Counted m → Counted (unregister_client id m).state
unfolding unregister_client refuse put_clients count_clients decrease_active one_if
unregister_client-Counted id m h = elim (Option-cases (find id m.connected_clients)) [
  | inl e ↦ rw (e, unregister_client) h
  | inr (client, e) ↦
      let counted = count_active-erase id client m.connected_clients e h.unique in
      elim (Bool-cases (is_active client.session_state)) [
        | inl a ↦
            rw (e, unregister_client)
              (rw (a, if◌then◌else◌)
                (record {
                  unique = erase-Unique id m.connected_clients h.unique;
                  count =
                      counter_down m.num_active (count_active m.connected_clients)
                        (count_active (erase id m.connected_clients)) h.count
                        (ground (arith, counted));
                }))
        | inr a ↦
            rw (e, unregister_client)
              (rw (a, if◌then◌else◌)
                (record {
                  unique = erase-Unique id m.connected_clients h.unique;
                  count = ground (arith, h.count, counted);
                }))
      ]
]

unregister_all-Counted :
    (ids : List ℕ) (m : ClientsManager) → Counted m → Counted (unregister_all ids m).0
unfolding unregister_all
unregister_all-Counted [] m h = h
unregister_all-Counted (id ∷ ids) m h =
    unregister_all-Counted ids (unregister_client id m).state (unregister_client-Counted id m h)

new_client-inactive :
    (path id : ℕ) (m : ClientsManager)
    → count_active m.connected_clients
      ≡ count_active ((id, new_client path m.devices_manager) ∷ m.connected_clients)
unfolding count_active new_client one_if is_active
new_client-inactive path id m = omega arith

add_client-Counted :
    (path id : ℕ) (m : ClientsManager) → Counted m → Counted (add_client path id m).0
unfolding add_client put_clients count_clients
add_client-Counted path id m h = elim (Bool-cases (contains id m.connected_clients)) [
  | inl e ↦ rw (e, if◌then◌else◌) h
  | inr e ↦
      rw (e, if◌then◌else◌)
        (record {
          unique = (e, h.unique);
          count = h.count ∙ ap (λ (c : ℕ). c % 2 ^ 32) (new_client-inactive path id m);
        })
]

pub register_client-Counted :
    (path id : ℕ) (m : ClientsManager) → Counted m → Counted (register_client path id m).state
unfolding register_client put_clients
register_client-Counted path id m h = elim (Bool-cases (path_is_taken path m.connected_clients)) [
  | inl e ↦
      rw (e, if◌then◌else◌)
        (record {
          unique = uncheck_all-Unique m.connected_clients h.unique;
          count =
              h.count
              ∙ ap (λ (c : ℕ). c % 2 ^ 32) (sym (count_active-uncheck_all m.connected_clients));
        })
  | inr e ↦
      rw (e, if◌then◌else◌)
        (add_client-Counted path id _
          (unregister_all-Counted (lost_clients m.connected_clients) m h))
]

-- The counter follows a change of one client's state.
change_active-Counted :
    (before now : Bool) (m : ClientsManager) (c : ℕ)
    → Unique m.connected_clients
    → m.num_active ≡ c % 2 ^ 32
    → count_active m.connected_clients + one_if before ≡ c + one_if now
    → Counted (change_active before now m)
unfolding change_active increase_active decrease_active one_if
change_active-Counted true true m c u h e = record { unique = u; count = omega arith }
change_active-Counted false false m c u h e = record { unique = u; count = omega arith }
change_active-Counted true false m c u h e = record {
  unique = u;
  count = counter_down m.num_active c (count_active m.connected_clients) h (omega arith);
}
change_active-Counted false true m c u h e = record {
  unique = u;
  count = counter_up m.num_active c (count_active m.connected_clients) h (omega arith);
}

pub if-Counted :
    {A : Type 0} (b : Bool) (x y : Done A)
    → Counted x.state
    → Counted y.state
    → Counted (if b then x else y).state
if-Counted true x y hx hy = hx
if-Counted false x y hx hy = hy

pub update_client_state-Counted :
    (id : ℕ) (state : SessionState) (m : ClientsManager)
    → Counted m
    → Counted (update_client_state id state m).state
unfolding update_client_state refuse put_clients
update_client_state-Counted id state m h = elim (Option-cases (find id m.connected_clients)) [
  | inl e ↦ rw (e, update_client_state) h
  | inr (old, e) ↦
      let client = record old { session_state = state; check = true } in
      let changed =
        change_active-Counted (is_active old.session_state) (is_active state)
          (record m { connected_clients = assign id client m.connected_clients })
          (count_active m.connected_clients) (assign-Unique id client m.connected_clients h.unique)
          h.count (count_active-assign id old client m.connected_clients e) in
      rw (e, update_client_state) (if-Counted (is_handled state) _ _ changed h)
]
