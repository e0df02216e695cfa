-- ===== src/DbusHandler/Same.antt =====
-- The calls of the service keep the clients of the daemon and where its devices are.
use glogi_k.Prelude.{
  ℕ, Bool, true, false, List, [], ◌∷◌, Option, some, ◌≡◌, refl, arith, ◌==◌, if◌then◌else◌, Map,
  find, contains, assign, is_some, find-assign, Option-cases, Bool-cases, inl, inr, ap, ◌∙◌,
}
use glogi_k.ClientsManager.{
  SessionState, Client, ClientsManager, Done, refuse, put_clients, change_active, increase_active,
  decrease_active, update_client_state, toggle_client_ready_propertie,
}
use glogi_k.ClientsManager.Devices.{
  change_devices, get_device_properties, delete_device_configuration, set_device_backlight_color,
  set_device_lcd_plugins_mask,
}
use glogi_k.ClientsManager.{ClientDevice}
use glogi_k.DevicesHandler.{DevicesHandler, Effect, RemoteCall}
use glogi_k.DevicesHandler
use glogi_k.DbusHandler.{Delivery, replied, reply_lost, not_sent, remote, serve_call, serve_calls}

-- The daemon keeps its devices and every client.
pub record Same (m m' : ClientsManager) : Type 0 where
  pub devices_manager : m'.devices_manager ≡ m.devices_manager
  pub connected : (id : ℕ) → contains id m'.connected_clients ≡ contains id m.connected_clients

pub same : (m : ClientsManager) → Same m m
same m = record { devices_manager = refl; connected = λ id. refl }

pub Same-Same : (m m₁ m₂ : ClientsManager) → Same m m₁ → Same m₁ m₂ → Same m m₂
Same-Same m m₁ m₂ a b = record {
  devices_manager = b.devices_manager ∙ a.devices_manager;
  connected = λ id. b.connected id ∙ a.connected id;
}

assign-contains {ℓ} :
    {A : Type ℓ} (k j : ℕ) (v w : A) (m : Map A)
    → find j m ≡ some w
    → contains k (assign j v m) ≡ contains k m
unfolding is_some
assign-contains k j v w m e = elim (Bool-cases (j == k)) [
  | inl t ↦
      let eq : j ≡ k = ground (arith, t) in
      ground (arith, find-assign k j v m, e, t, ap (λ i. find i m) eq)
  | inr t ↦ ground (arith, find-assign k j v m, t)
]

put_clients-Same :
    (id : ℕ) (client old : Client) (m : ClientsManager)
    → find id m.connected_clients ≡ some old
    → Same m (put_clients (assign id client m.connected_clients) m)
unfolding put_clients
put_clients-Same id client old m e = record {
  devices_manager = refl;
  connected = λ k. assign-contains k id client old m.connected_clients e;
}

change_active-Same : (before now : Bool) (m : ClientsManager) → Same m (change_active before now m)
unfolding change_active increase_active decrease_active
change_active-Same false false m = same m
change_active-Same false true m = record { devices_manager = refl; connected = λ id. refl }
change_active-Same true false m = record { devices_manager = refl; connected = λ id. refl }
change_active-Same true true m = same m

-- A state that a test chooses.
if-Same :
    (m : ClientsManager) (b : Bool) (x y : Done Bool)
    → Same m x.state
    → Same m y.state
    → Same m (if b then x else y).state
if-Same m true x y hx hy = hx
if-Same m false x y hx hy = hy

pub update_client_state-Same :
    (id : ℕ) (state : SessionState) (m : ClientsManager)
    → Same m (update_client_state id state m).state
unfolding update_client_state refuse
update_client_state-Same id state m = elim (Option-cases (find id m.connected_clients)) [
  | inl e ↦ rw (e, update_client_state) (same m)
  | inr (old, e) ↦
      let client = record old { session_state = state; check = true } in
      let put = put_clients (assign id client m.connected_clients) m in
      rw (e, update_client_state)
        (if-Same m _ _ _
          (Same-Same m put _ (put_clients-Same id client old m e) (change_active-Same _ _ put))
          (same m))
]

pub toggle_client_ready_propertie-Same :
    (id : ℕ) (m : ClientsManager) → Same m (toggle_client_ready_propertie id m).state
unfolding toggle_client_ready_propertie refuse
toggle_client_ready_propertie-Same id m = elim (Option-cases (find id m.connected_clients)) [
  | inl e ↦ rw (e, toggle_client_ready_propertie) (same m)
  | inr (old, e) ↦ rw (e, toggle_client_ready_propertie) (put_clients-Same id _ old m e)
]

change_devices-Same :
    (id : ℕ) (f : Client → Option (Map ClientDevice)) (m : ClientsManager)
    → Same m (change_devices id f m).state
unfolding change_devices refuse
change_devices-Same id f m = elim (Option-cases (find id m.connected_clients)) [
  | inl e ↦ rw (e, change_devices) (same m)
  | inr (client, e) ↦ elim (Option-cases (f client)) [
    | inl t ↦ rw (e, t, change_devices) (same m)
    | inr (devices, t) ↦ rw (e, t, change_devices) (put_clients-Same id _ client m e)
  ]
]

serve_call-Same : (id : ℕ) (c : RemoteCall) (m : ClientsManager) → Same m (serve_call id c m)
unfolding serve_call get_device_properties delete_device_configuration set_device_backlight_color
    set_device_lcd_plugins_mask refuse
serve_call-Same id (DevicesHandler.get_device_properties device) m = change_devices-Same id _ m
serve_call-Same id (DevicesHandler.get_device_lcd_plugins_properties device) m = same m
serve_call-Same id (DevicesHandler.get_device_mkeys_id_array device) m = same m
serve_call-Same id (DevicesHandler.get_device_gkeys_id_array device) m = same m
serve_call-Same id (DevicesHandler.delete_device_configuration device) m =
    change_devices-Same id _ m
serve_call-Same id (DevicesHandler.set_device_backlight_color device rgb) m =
    change_devices-Same id _ m
serve_call-Same id (DevicesHandler.set_device_lcd_plugins_mask device mask_id mask) m =
    if-Same m _ _ _ (change_devices-Same id _ m) (same m)

if_either-Same :
    (m : ClientsManager) (b : Bool) (x y : ClientsManager)
    → Same m x
    → Same m y
    → Same m (if b then x else y)
if_either-Same m true x y hx hy = hx
if_either-Same m false x y hx hy = hy

pub serve_calls-Same :
    (reaches : RemoteCall → Bool) (id : ℕ) (effects : List Effect) (m : ClientsManager)
    → Same m (serve_calls reaches id effects m)
unfolding serve_calls
serve_calls-Same reaches id [] m = same m
serve_calls-Same reaches id (DevicesHandler.call c ∷ effects) m =
    let m₁ = if reaches c then serve_call id c m else m in
    let served =
      if_either-Same m (reaches c) (serve_call id c m) m (serve_call-Same id c m) (same m) in
    Same-Same m m₁ _ served (serve_calls-Same reaches id effects m₁)
serve_calls-Same reaches id (DevicesHandler.save_file device file p ∷ effects) m =
    serve_calls-Same reaches id effects m
serve_calls-Same reaches id (DevicesHandler.configuration_saved device ∷ effects) m =
    serve_calls-Same reaches id effects m
serve_calls-Same reaches id (DevicesHandler.add_watch vendor check ∷ effects) m =
    serve_calls-Same reaches id effects m
serve_calls-Same reaches id (DevicesHandler.remove_watch wd ∷ effects) m =
    serve_calls-Same reaches id effects m
serve_calls-Same reaches id (DevicesHandler.show_notification device p ∷ effects) m =
    serve_calls-Same reaches id effects m

pub remote-Same :
    {A : Type 0} (d : Delivery) (done : Done A) (m : ClientsManager)
    → Same m done.state
    → Same m (remote d done m).0
unfolding remote
remote-Same replied done m h = h
remote-Same reply_lost done m h = h
remote-Same not_sent done m h = same m
