-- ===== src/Scenarios/Devices.antt =====
-- The devices manager at concrete inputs.
use glogi_k.Prelude.{true, not, List, [], ◌∷◌, some, ◌≡◌, refl, arith, ◌==◌, find, is_some}
use glogi_k.DevicesManager.{
  DevicesManager, DeviceDriver, StatusSignal, Call, search_supported_devices, initialize, start,
  stop, check_threads_status, check_unplugged, call_all, start_device, stop_device, has_driver,
  get_device_status,
}
use glogi_k.DevicesManager.Good.{Good}
use glogi_k.DevicesManager.Runs.{call_all-Good}
use glogi_k.DevicesManager.Moves.{stop_device-start_device}

abbrev pub g510 : DeviceDriver
g510 = record { driver_id = 46 }

-- The device 7 is started.
abbrev pub manager : DevicesManager
manager = record {
  drivers = 46 ∷ [];
  detected_devices = [];
  started_devices = (7, g510) ∷ [];
  stopped_devices = [];
  unplugged_devices = [];
  sleeping_devices = [];
  num_clients = 1;
}

-- The device 8 is plugged in and started, the threads of 7 end, 8 is stopped and unplugged.
abbrev calls : List Call
calls =
    search_supported_devices ((7, g510) ∷ (8, g510) ∷ [])
    ∷ initialize (λ id. true) true
    ∷ check_threads_status (λ id. not (id == 7))
    ∷ stop 8
    ∷ search_supported_devices ((7, g510) ∷ [])
    ∷ check_unplugged
    ∷ start (λ id. true) 7
    ∷ []

manager-Good : Good 46 manager
unfolding find is_some
manager-Good = record { drivers = refl; unique = (refl, tt); disjoint = λ id. ground arith }

call_all-Good_example :
    (r : DevicesManager × List StatusSignal) × (call_all calls manager ≡ some r) × Good 46 r.0
call_all-Good_example = call_all-Good 46 calls manager manager-Good

g510_found : find 7 manager.started_devices ≡ some g510
unfolding find
g510_found = refl

g510_driver : has_driver manager.drivers 46 ≡ true
unfolding has_driver
g510_driver = refl

stop_device-start_device_example :
    ((stop_device 7 manager).0 ≡ true)
    × ((start_device (λ id. true) 7 (stop_device 7 manager).1).0 ≡ true)
    × (get_device_status 7 (start_device (λ id. true) 7 (stop_device 7 manager).1).1
        ≡ get_device_status 7 manager)
stop_device-start_device_example =
    stop_device-start_device (λ id. true) 7 7 manager g510 g510_found g510_driver refl
