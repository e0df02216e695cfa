-- ===== src/ClientsManager/Serving.antt =====
-- Every call of a client keeps the count of active users.
use glogi_k.Prelude.{
  ℕ, ◌%◌, ◌^◌, Bool, true, false, not, List, [], ◌∷◌, Option, some, ◌≡◌, refl, ap, ◌∙◌, arith, leb,
  Map, find, assign, assign-Unique, Option-cases, inl, inr,
}
use glogi_k.ClientsManager.{
  SessionState, Client, ClientDevice, ClientsManager, is_active, refuse, put_clients,
  toggle_client_ready_propertie,
}
use glogi_k.ClientsManager.Devices.{
  change_devices, delete_device_configuration, set_device_backlight_color,
  set_device_lcd_plugins_mask, get_device_properties, client_stop_device, client_start_device,
  put_devices_manager, restart_device, set_enabled_signals, is_allowed,
}
use glogi_k.ClientsManager.Calls.{
  Request, register, unregister, toggle_ready, update_state, delete_configuration, get_properties,
  stop_request, set_backlight, set_lcd_mask, start_request, restart_request, serve, serve_all,
}
use glogi_k.ClientsManager.Counted.{one_if, Counted, count_active-assign}
use glogi_k.ClientsManager.Joining.{
  unregister_client-Counted, register_client-Counted, if-Counted, update_client_state-Counted,
}

-- A change of a client that leaves its session state.
same_state-Counted :
    (id : ℕ) (old client : Client) (m : ClientsManager)
    → find id m.connected_clients ≡ some old
    → client.session_state ≡ old.session_state
    → Counted m
    → Counted (put_clients (assign id client m.connected_clients) m)
unfolding put_clients
same_state-Counted id old client m e same h = record {
  unique = assign-Unique id client m.connected_clients h.unique;
  count =
      h.count
      ∙ ap (λ (c : ℕ). c % 2 ^ 32)
          (omega (
            arith,
            count_active-assign id old client m.connected_clients e,
            ap (λ (s : SessionState). one_if (is_active s)) same,
          ));
}

toggle-Counted :
    (id : ℕ) (m : ClientsManager) → Counted m → Counted (toggle_client_ready_propertie id m).state
unfolding toggle_client_ready_propertie refuse
toggle-Counted id m h = elim (Option-cases (find id m.connected_clients)) [
  | inl e ↦ rw (e, toggle_client_ready_propertie) h
  | inr (old, e) ↦
      rw (e, toggle_client_ready_propertie)
        (same_state-Counted id old (record old { ready = not old.ready }) m e refl h)
]

change_devices-Counted :
    (id : ℕ) (f : Client → Option (Map ClientDevice)) (m : ClientsManager)
    → Counted m
    → Counted (change_devices id f m).state
unfolding change_devices refuse
change_devices-Counted id f m h = elim (Option-cases (find id m.connected_clients)) [
  | inl e ↦ rw (e, change_devices) h
  | inr (old, e) ↦ elim (Option-cases (f old)) [
    | inl n ↦ rw (e, change_devices) (rw n h)
    | inr (devices, s) ↦
        rw (e, change_devices)
          (rw s (same_state-Counted id old (record old { devices = devices }) m e refl h))
  ]
]

client_stop_device-Counted :
    (id device : ℕ) (m : ClientsManager)
    → Counted m
    → Counted (client_stop_device id device m).state
unfolding client_stop_device put_devices_manager refuse
client_stop_device-Counted id device m h = elim (Option-cases (find id m.connected_clients)) [
  | inl e ↦ rw (e, client_stop_device) h
  | inr (client, e) ↦
      rw (e, client_stop_device)
        (if-Counted (is_allowed client) _ _ (record { unique = h.unique; count = h.count }) h)
]

client_start_device-Counted :
    (opens : ℕ → Bool) (id device : ℕ) (m : ClientsManager)
    → Counted m
    → Counted (client_start_device opens id device m).state
unfolding client_start_device put_devices_manager refuse
client_start_device-Counted opens id device m h =
    elim (Option-cases (find id m.connected_clients)) [
      | inl e ↦ rw (e, client_start_device) h
      | inr (client, e) ↦
          rw (e, client_start_device)
            (if-Counted (is_allowed client) _ _ (record { unique = h.unique; count = h.count }) h)
    ]

enabled-Counted : (b : Bool) (m : ClientsManager) → Counted m → Counted (set_enabled_signals b m)
unfolding set_enabled_signals
enabled-Counted b m h = record { unique = h.unique; count = h.count }

restart_device-Counted :
    (opens : ℕ → Bool) (id device : ℕ) (m : ClientsManager)
    → Counted m
    → Counted (restart_device opens id device m).state
unfolding restart_device
restart_device-Counted opens id device m h =
    let quiet = set_enabled_signals false m in
    let stopped = client_stop_device-Counted id device quiet (enabled-Counted false m h) in
    let s = (client_stop_device id device quiet).state in
    let started = client_start_device-Counted opens id device s stopped in
    if-Counted (client_stop_device id device quiet).result _ _
      (enabled-Counted true (client_start_device opens id device s).state started)
      (enabled-Counted true s stopped)

serve-Counted : (r : Request) (m : ClientsManager) → Counted m → Counted (serve r m)
unfolding serve delete_device_configuration get_device_properties set_device_backlight_color
    set_device_lcd_plugins_mask refuse
serve-Counted (register path id) m h = register_client-Counted path id m h
serve-Counted (unregister id) m h = unregister_client-Counted id m h
serve-Counted (toggle_ready id) m h = toggle-Counted id m h
serve-Counted (update_state id state) m h = update_client_state-Counted id state m h
serve-Counted (delete_configuration id device) m h = change_devices-Counted id _ m h
serve-Counted (get_properties id device) m h = change_devices-Counted id _ m h
serve-Counted (stop_request id device) m h = client_stop_device-Counted id device m h
serve-Counted (set_backlight id device rgb) m h = change_devices-Counted id _ m h
serve-Counted (set_lcd_mask id device mask_id mask) m h =
    if-Counted (leb mask_id 1) _ _ (change_devices-Counted id _ m h) h
serve-Counted (start_request opens id device) m h = client_start_device-Counted opens id device m h
serve-Counted (restart_request opens id device) m h = restart_device-Counted opens id device m h

-- Whatever the clients ask, no client is in the container twice, and the number of active users is
-- the number of connected clients whose session is active, as an unsigned int counts.
pub serve_all-Counted :
    (rs : List Request) (m : ClientsManager) → Counted m → Counted (serve_all rs m)
unfolding serve_all
serve_all-Counted [] m h = h
serve_all-Counted (r ∷ rs) m h = serve_all-Counted rs (serve r m) (serve-Counted r m h)
