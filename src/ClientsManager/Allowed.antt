-- ===== src/ClientsManager/Allowed.antt =====
-- Only a connected client that is ready, alive and active changes the state of a device.
use glogi_k.Prelude.{ℕ, Bool, false, [], none, some, ◌≡◌, ◌≢◌, ◌⊎◌, arith, find, inl, inr}
use glogi_k.ClientsManager.{Client, ClientsManager, state_active, is_active, refuse}
use glogi_k.ClientsManager.Devices.{
  is_allowed, client_stop_device, client_start_device, restart_device, set_enabled_signals,
}

-- The client is not connected, or it lacks one of the three things.
pub data Forbidden (id : ℕ) (m : ClientsManager) : Type 0 where
  unknown : find id m.connected_clients ≡ none → Forbidden id m
  not_ready :
      (client : Client)
      → find id m.connected_clients ≡ some client
      → client.ready ≡ false
      → Forbidden id m
  not_alive :
      (client : Client)
      → find id m.connected_clients ≡ some client
      → client.check ≡ false
      → Forbidden id m
  not_active :
      (client : Client)
      → find id m.connected_clients ≡ some client
      → client.session_state ≢ state_active
      → Forbidden id m

Forbidden-cases :
    (id : ℕ) (m : ClientsManager)
    → Forbidden id m
    → (find id m.connected_clients ≡ none)
      ⊎ (client : Client) × (find id m.connected_clients ≡ some client)
        × (is_allowed client ≡ false)
unfolding is_allowed is_active
Forbidden-cases id m (unknown e) = inl e
Forbidden-cases id m (not_ready client e h) = inr (client, e, ground (arith, h))
Forbidden-cases id m (not_alive client e h) = inr (client, e, ground (arith, h))
Forbidden-cases id m (not_active client e h) = inr (client, e, ground (arith, h))

-- From a client that is not connected, or not ready, or not alive, or whose session is not active, a call to stop, start
-- or restart a device fails, changes no device and sends nothing.
pub restart_device-refused :
    (opens : ℕ → Bool) (id device : ℕ) (m : ClientsManager)
    → Forbidden id m
    → (client_stop_device id device m ≡ refuse m)
      × (client_start_device opens id device m ≡ refuse m)
      × ((restart_device opens id device m).result ≡ false)
      × ((restart_device opens id device m).effects ≡ [])
      × ((restart_device opens id device m).state.devices_manager ≡ m.devices_manager)
unfolding client_stop_device client_start_device restart_device refuse set_enabled_signals
restart_device-refused opens id device m h = elim (Forbidden-cases id m h) [
  | inl e ↦ (ground arith, ground arith, ground arith, ground arith, ground arith)
  | inr (client, e, f) ↦ (ground arith, ground arith, ground arith, ground arith, ground arith)
]
