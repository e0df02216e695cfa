-- ===== src/ClientsManager/Calls.antt =====
-- Every call of a client that changes the daemon's view of the clients, and sequences of them.
use glogi_k.Prelude.{ℕ, Bool, List, [], ◌∷◌}
use glogi_k.ClientsManager.{
  SessionState, ClientsManager, register_client, unregister_client, update_client_state,
  toggle_client_ready_propertie,
}
use glogi_k.ClientsManager.Devices.{
  delete_device_configuration, set_device_backlight_color, set_device_lcd_plugins_mask,
  get_device_properties, client_stop_device, client_start_device, restart_device,
}

pub data Request : Type 0 where
  register : ℕ → ℕ → Request
  unregister toggle_ready : ℕ → Request
  update_state : ℕ → SessionState → Request
  delete_configuration get_properties stop_request : ℕ → ℕ → Request
  set_backlight : ℕ → ℕ → ℕ × ℕ × ℕ → Request
  set_lcd_mask : ℕ → ℕ → ℕ → ℕ → Request
  start_request restart_request : (ℕ → Bool) → ℕ → ℕ → Request

unfoldable pub serve : Request → ClientsManager → ClientsManager
serve (register path id) m = (register_client path id m).state
serve (unregister id) m = (unregister_client id m).state
serve (toggle_ready id) m = (toggle_client_ready_propertie id m).state
serve (update_state id state) m = (update_client_state id state m).state
serve (delete_configuration id device) m = (delete_device_configuration id device m).state
serve (get_properties id device) m = (get_device_properties id device m).state
serve (stop_request id device) m = (client_stop_device id device m).state
serve (set_backlight id device rgb) m = (set_device_backlight_color id device rgb m).state
serve (set_lcd_mask id device mask_id mask) m =
    (set_device_lcd_plugins_mask id device mask_id mask m).state
serve (start_request opens id device) m = (client_start_device opens id device m).state
serve (restart_request opens id device) m = (restart_device opens id device m).state

unfoldable pub serve_all : List Request → ClientsManager → ClientsManager
serve_all [] m = m
serve_all (r ∷ rs) m = serve_all rs (serve r m)
