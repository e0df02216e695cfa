-- ===== src/Scenarios/Whole.antt =====
-- A G510 that the service starts, stops and starts again, and a macro that is recorded on it.
use glogi_k.Prelude.{true, List, [], ◌∷◌, none, some, ◌≡◌, refl, arith, ap, find, contains, All}
use glogi_k.LogitechG510.{get_mkeys_id_array, get_gkeys_id_array}
use glogi_k.KeyboardDriver.Listen.{Listener, run}
use glogi_k.DevicesHandler.{World}
use glogi_k.DevicesHandler.Containers.{Request, start, stop, handle_all}
use glogi_k.DevicesHandler.Containers.Status.{status_of, specified, specified_all, started}
use glogi_k.DevicesHandler.Containers.Refines.{handle_all-specified}
use glogi_k.DevicesHandler.Containers.Uniform.{AllDevices, world_of}
use glogi_k.ClientsManager.{is_active}
use glogi_k.Service.{receive_all}
use glogi_k.Service.Accepts.{Ready, IsSuccess}
use glogi_k.Service.Followed.{FullDevice, TellsG510, IsFullArchive}
use glogi_k.Service.Handled.{service_of, handle_all-receive_all}
use glogi_k.Scenarios.{listener, record_g3}
use glogi_k.Scenarios.Keyboard.{listener-Sound}
use glogi_k.Scenarios.Followers.{world, no_devices, no_devices-Disjoint, system}

abbrev g510_world : World
g510_world = record world {
  mkeys_id_array = get_mkeys_id_array;
  gkeys_id_array = get_gkeys_id_array;
}

g510_world-TellsG510 : TellsG510 g510_world
unfolding IsFullArchive
g510_world-TellsG510 = record {
  vendor = b'L' ∷ [];
  product = b'G' ∷ [];
  name = b'K' ∷ [];
  caps = 15;
  properties = refl;
  macros = refl;
  mkeys = refl;
  gkeys = refl;
  archives = λ vendor file. tt;
}

abbrev restarts : List Request
restarts = start g510_world true 7 ∷ stop g510_world true 7 ∷ start g510_world true 7 ∷ []

restarts-TellsG510 : All (λ r. TellsG510 (world_of r)) restarts
unfolding world_of
restarts-TellsG510 = (g510_world-TellsG510, (g510_world-TellsG510, (g510_world-TellsG510, tt)))

no_devices-AllDevices : AllDevices FullDevice no_devices
unfolding find
no_devices-AllDevices = record {
  started = λ id device e. absurd (ground (arith, e));
  stopped = λ id device e. absurd (ground (arith, e));
}

restarted : status_of (handle_all restarts no_devices) 7 ≡ started
unfolding specified_all specified
restarted = ap (λ f. f 7) (handle_all-specified restarts no_devices no_devices-Disjoint).1

restarted_started : contains 7 (handle_all restarts no_devices).started_devices ≡ true
unfolding status_of
restarted_started = ground (arith, restarted)

system_active : is_active system.service.session_state ≡ true
unfolding is_active
system_active = refl

handle_all-receive_all_example :
    (l' : Listener) × (run listener record_g3 ≡ some l')
    × Ready 7
        (receive_all
          (λ name. none)
          7
          l'.sent
          (service_of system.service (handle_all restarts no_devices))).0
    × All IsSuccess
        (receive_all
          (λ name. none)
          7
          l'.sent
          (service_of system.service (handle_all restarts no_devices))).1
handle_all-receive_all_example =
    handle_all-receive_all (λ name. none) 7 restarts no_devices system.service listener record_g3
      restarts-TellsG510 no_devices-AllDevices restarted_started refl system_active listener-Sound
