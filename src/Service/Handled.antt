-- ===== src/Service/Handled.antt =====
-- From the daemon to the service: the signals of the listening thread, handled on the devices that the
-- service keeps.
use glogi_k.Prelude.{
  ℕ, true, List, [], ◌∷◌, Option, some, ◌≡◌, refl, arith, Map, find, contains, is_some, All,
  Option-cases, inl, inr, ◌∙◌, ap,
}
use mathlib.Core.Option
use glogi_k.Banks.{Banks}
use glogi_k.KeyboardDriver.Listen.{Listener, Input, run}
use glogi_k.KeyboardDriver.Listen.Invariant.{Sound}
use glogi_k.DeviceProperties.{DeviceProperties}
use glogi_k.DevicesHandler.{DevicesHandler}
use glogi_k.DevicesHandler.Containers.{Request, handle_all}
use glogi_k.DevicesHandler.Containers.Uniform.{AllDevices, Keeps, world_of}
use glogi_k.DevicesHandler.Containers.EachDevice.{handle_all-AllDevices}
use glogi_k.ClientsManager.{is_active}
use glogi_k.DbusHandler.{DbusHandler}
use glogi_k.Service.{Service, receive_all}
use glogi_k.Service.Accepts.{Ready, IsSuccess, run-receive_all}
use glogi_k.Service.Followed.{FullDevice, TellsG510, g510-Keeps}

-- What the handlers of the signals see of the service.
unfoldable pub banks_of : Map DeviceProperties → Map Banks
banks_of [] = []
banks_of ((id, device) ∷ devices) = (id, device.banks) ∷ banks_of devices

unfoldable pub service_of : DbusHandler → DevicesHandler → Service
service_of s devices = record {
  register_status = s.register_status;
  session_is_active = is_active s.session_state;
  started_devices = banks_of devices.started_devices;
}

find-banks_of :
    (id : ℕ) (m : Map DeviceProperties)
    → find id (banks_of m) ≡ Option.map (λ (d : DeviceProperties). d.banks) (find id m)
unfolding banks_of find
find-banks_of id [] = refl
find-banks_of id ((k, device) ∷ m) = ground (arith, find-banks_of id m)

service_of-Ready :
    (id : ℕ) (s : DbusHandler) (devices : DevicesHandler)
    → AllDevices FullDevice devices
    → contains id devices.started_devices ≡ true
    → s.register_status ≡ true
    → is_active s.session_state ≡ true
    → Ready id (service_of s devices)
unfolding service_of is_some
service_of-Ready id s devices all c r a = elim (Option-cases (find id devices.started_devices)) [
  | inl e ↦ absurd (ground (arith, e, c))
  | inr (device, e) ↦ record {
    banks = device.banks;
    started =
        find-banks_of id devices.started_devices
        ∙ ap (λ (o : Option DeviceProperties). Option.map (λ (d : DeviceProperties). d.banks) o) e;
    full = all.started id device e;
    registered = r;
    active = a;
  }
]

Keeps-all :
    (rs : List Request)
    → All (λ r. TellsG510 (world_of r)) rs
    → All (λ r. Keeps FullDevice (world_of r)) rs
Keeps-all [] t = tt
Keeps-all (r ∷ rs) t = (g510-Keeps (world_of r) t.0, Keeps-all rs t.1)

-- The whole way: whatever requests the service's devices handler gets about keyboards that the daemon
-- tells to be a G510, with configuration files as the service saves them, then whatever happens in the
-- daemon's listening thread from a sound state, every signal of it about a device that the handler
-- has started is handled without a failure, and afterwards the device is still ready. The client is
-- registered and its session is active; the devices from before have banks for all keys.
pub handle_all-receive_all :
    (search_path : List ℕ → Option (List ℕ)) (id : ℕ) (rs : List Request) (h : DevicesHandler)
    (s : DbusHandler) (l : Listener) (is : List Input)
    → All (λ r. TellsG510 (world_of r)) rs
    → AllDevices FullDevice h
    → contains id (handle_all rs h).started_devices ≡ true
    → s.register_status ≡ true
    → is_active s.session_state ≡ true
    → Sound l
    → (l' : Listener) × (run l is ≡ some l')
      × Ready id (receive_all search_path id l'.sent (service_of s (handle_all rs h))).0
      × All IsSuccess (receive_all search_path id l'.sent (service_of s (handle_all rs h))).1
handle_all-receive_all search_path id rs h s l is t all c r a sound =
    let devices = handle_all rs h in
    let full = handle_all-AllDevices FullDevice rs h (Keeps-all rs t) all in
    run-receive_all search_path id l is (service_of s devices) sound
      (service_of-Ready id s devices full c r a)
