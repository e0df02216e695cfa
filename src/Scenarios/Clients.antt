-- ===== src/Scenarios/Clients.antt =====
-- The clients manager at concrete inputs.
use glogi_k.Prelude.{
  true, false, ◌||◌, List, [], ◌∷◌, ◌≡◌, refl, ◌==◌, find, contains, is_some, Unique, Bool-cases,
  inl, inr, ap, arith,
}
use glogi_k.ClientsManager.{
  Client, ClientsManager, state_active, state_unknown, register_client, registered,
  already_registered, path_is_taken, refuse, is_active,
}
use glogi_k.ClientsManager.Devices.{client_stop_device, client_start_device, restart_device}
use glogi_k.ClientsManager.Calls.{
  Request, register, unregister, toggle_ready, update_state, stop_request, serve_all,
}
use glogi_k.ClientsManager.Counted.{Counted, count_active, one_if}
use glogi_k.ClientsManager.Serving.{serve_all-Counted}
use glogi_k.ClientsManager.Register.{
  is_alive, IsFree, register_client-contains, register_client_again,
}
use glogi_k.ClientsManager.Allowed.{Forbidden, not_ready, restart_device-refused}
use glogi_k.Scenarios.Devices.{manager}

-- The client 1 of the session 100, which has said nothing yet.
abbrev newcomer : Client
newcomer = record {
  session_state = state_unknown;
  session_object_path = 100;
  devices = [];
  check = true;
  ready = false;
}

abbrev clients : ClientsManager
clients = record {
  connected_clients = (1, newcomer) ∷ [];
  num_active = 0;
  enabled_signals = true;
  devices_manager = manager;
}

abbrev requests : List Request
requests =
    update_state 1 state_active
    ∷ toggle_ready 1
    ∷ register 101 2
    ∷ stop_request 1 7
    ∷ unregister 1
    ∷ []

clients-Counted : Counted clients
unfolding find is_some count_active one_if is_active
clients-Counted = record { unique = (refl, tt); count = refl }

serve_all-Counted_example : Counted (serve_all requests clients)
serve_all-Counted_example = serve_all-Counted requests clients clients-Counted

clients-Unique : Unique clients.connected_clients
unfolding find is_some
clients-Unique = (refl, tt)

path_101 : IsFree 101 clients.connected_clients
unfolding find
path_101 j client e alive = elim (Bool-cases (1 == j)) [
  | inl q ↦
      let same : newcomer ≡ client = ground (arith, q, e) in
      let path : 100 ≡ client.session_object_path =
        ap (λ (c : Client). c.session_object_path) same in
      λ p. absurd (omega (arith, path, p))
  | inr q ↦ absurd (ground (arith, q, e))
]

path_100 : path_is_taken 100 clients.connected_clients ≡ true
unfolding path_is_taken
path_100 = refl

name_2 : contains 2 clients.connected_clients ≡ false
unfolding find is_some
name_2 = refl

register_client-contains_example :
    ((register_client 101 2 clients).result ≡ registered 2)
    × (contains 1 (register_client 101 2 clients).state.connected_clients
        ≡ (2 == 1 || is_alive 1 clients.connected_clients))
register_client-contains_example =
    register_client-contains 101 2 1 clients clients-Unique path_101 name_2

register_client_again_example :
    ((register_client 100 3 clients).result ≡ already_registered)
    × ((register_client 100 2 (register_client 100 3 clients).state).result ≡ registered 2)
    × (contains 1
          (register_client 100 2 (register_client 100 3 clients).state).state.connected_clients
        ≡ (2 == 1))
register_client_again_example = register_client_again 100 3 2 1 clients path_100 name_2

newcomer_waits : Forbidden 1 clients
unfolding find
newcomer_waits = not_ready newcomer refl refl

restart_device-refused_example :
    (client_stop_device 1 7 clients ≡ refuse clients)
    × (client_start_device (λ id. true) 1 7 clients ≡ refuse clients)
    × ((restart_device (λ id. true) 1 7 clients).result ≡ false)
    × ((restart_device (λ id. true) 1 7 clients).effects ≡ [])
    × ((restart_device (λ id. true) 1 7 clients).state.devices_manager ≡ clients.devices_manager)
restart_device-refused_example = restart_device-refused (λ id. true) 1 7 clients newcomer_waits
