-- ===== src/Scenarios/Followers.antt =====
-- A service that follows a daemon with two keyboards, one started and one stopped.
use glogi_k.Prelude.{
  ℕ, true, false, List, [], ◌∷◌, none, some, ◌≡◌, refl, arith, find, contains, is_some, inl, ◌∙◌,
}
use glogi_k.DevicesManager.{get_device_status}
use glogi_k.DevicesManager.Disjoint
use glogi_k.ClientsManager.{
  state_unknown, state_active, Client, ClientsManager, toggle_client_ready_propertie,
}
use glogi_k.DeviceProperties.{new_device_properties}
use glogi_k.DevicesHandler.{DevicesHandler, World, show_notification}
use glogi_k.DevicesHandler.Containers.{
  Request, start, stop, unplug, save, reload_file, handle_all, start_device, stop_device,
}
use glogi_k.DevicesHandler.Containers.Status.{status_of, specified_all, Disjoint}
use glogi_k.DevicesHandler.Containers.Refines.{handle_all-specified}
use glogi_k.DevicesHandler.Containers.Files.{file_of, DistinctFiles}
use glogi_k.DevicesHandler.Containers.DistinctFiles.{handle_all-DistinctFiles}
use glogi_k.DevicesHandler.Containers.Notified.{stop_device-start_device-notified}
use glogi_k.DbusHandler.{
  System, Outside, replied, reply_lost, not_sent, kind_started, initialize_devices,
}
use glogi_k.DbusHandler.Events.{
  Event, starting, report_yourself, signalled, exiting, changed, stopping, step_all,
  daemon_is_starting, daemon_is_stopping,
}
use glogi_k.DbusHandler.Same.{toggle_client_ready_propertie-Same}
use glogi_k.DbusHandler.Handled.{Known}
use glogi_k.DbusHandler.Synchronized.{mirrored, initialize_devices-mirrored}
use glogi_k.DbusHandler.Registered.{Linked}
use glogi_k.DbusHandler.Linked.{step_all-Linked}
use glogi_k.DbusHandler.Stale.{Stale, daemon_is_stopping-Stale}
use glogi_k.Scenarios.Devices.{g510}

-- The daemon tells of a keyboard with all capabilities; every file name is a file that cannot be read.
abbrev pub world : World
world = record {
  properties = some (b'L' ∷ [], b'G' ∷ [], b'K' ∷ [], 15);
  lcd_plugins = none;
  mkeys_id_array = 1 ∷ 2 ∷ 3 ∷ [];
  gkeys_id_array = 1 ∷ 2 ∷ [];
  is_regular_file = λ vendor file. true;
  archive = λ vendor file. none;
  new_watch = λ vendor check. some 5;
}

abbrev pub no_devices : DevicesHandler
no_devices = record {
  client_id = 3;
  ignored_fs_notifications = [];
  started_devices = [];
  stopped_devices = [];
}

abbrev requests : List Request
requests =
    start world true 7
    ∷ stop world true 8
    ∷ save world 7
    ∷ reload_file world 7
    ∷ unplug world true 8
    ∷ []

pub no_devices-Disjoint : Disjoint no_devices
unfolding find is_some
no_devices-Disjoint id = refl

no_devices-DistinctFiles : DistinctFiles no_devices
unfolding file_of find
no_devices-DistinctFiles a b name ea eb = absurd (ground (arith, ea))

handle_all-specified_example :
    Disjoint (handle_all requests no_devices)
    × (status_of (handle_all requests no_devices) ≡ specified_all requests (status_of no_devices))
handle_all-specified_example = handle_all-specified requests no_devices no_devices-Disjoint

handle_all-DistinctFiles_example : DistinctFiles (handle_all requests no_devices)
handle_all-DistinctFiles_example =
    handle_all-DistinctFiles requests no_devices no_devices-DistinctFiles

abbrev single_device : DevicesHandler
single_device = record no_devices { started_devices = (7, new_device_properties) ∷ [] }

one_device_started : find 7 single_device.started_devices ≡ some new_device_properties
unfolding find
one_device_started = refl

one_device_not_stopped : find 7 single_device.stopped_devices ≡ none
unfolding find
one_device_not_stopped = refl

stop_device-start_device-notified_example :
    ((stop_device world true 7 single_device).1 ≡ show_notification 7 none ∷ [])
    × ((start_device world true 7 (stop_device world true 7 single_device).0).1
        ≡ show_notification 7 none ∷ [])
stop_device-start_device-notified_example =
    stop_device-start_device-notified world world 7 new_device_properties single_device
      one_device_started one_device_not_stopped

abbrev outside : Outside
outside = record {
  register_delivery = replied;
  unregister_delivery = replied;
  update_delivery = reply_lost;
  toggle_delivery = not_sent;
  started_delivery = replied;
  stopped_delivery = replied;
  status_answered = λ device. true;
  reaches = λ c. true;
  new_client_id = 3;
  same_version = true;
  session = some state_active;
  world = λ device. world;
}

abbrev client : Client
client = record {
  session_state = state_unknown;
  session_object_path = 1;
  devices = [];
  check = true;
  ready = false;
}

abbrev daemon : ClientsManager
daemon = record {
  connected_clients = (3, client) ∷ [];
  num_active = 0;
  enabled_signals = true;
  devices_manager = record {
    drivers = 46 ∷ [];
    detected_devices = [];
    started_devices = (7, g510) ∷ [];
    stopped_devices = (8, g510) ∷ [];
    unplugged_devices = [];
    sleeping_devices = [];
    num_clients = 1;
  };
}

abbrev pub system : System
system = record {
  daemon = daemon;
  service = record {
    client_id = some 3;
    session_object_path = 1;
    session_state = state_active;
    register_status = true;
    want_to_exit = false;
    devices = no_devices;
  };
}

system-Known : Known 3 system
unfolding find is_some
system-Known = record { client_id = refl; connected = refl }

system-Disjoint : Disjoint.Disjoint system.daemon.devices_manager
unfolding find is_some
system-Disjoint id = ground arith

initialize_devices-mirrored_example :
    Disjoint (initialize_devices outside system).service.devices
    × ((j : ℕ)
        → status_of (initialize_devices outside system).service.devices j
          ≡ mirrored (get_device_status j daemon.devices_manager) (status_of no_devices j))
initialize_devices-mirrored_example =
    initialize_devices-mirrored outside 3 system refl system-Known no_devices-Disjoint
      system-Disjoint refl refl (λ j. refl)

-- Before the service is registered.
abbrev unregistered : System
unregistered = record {
  daemon = record daemon { connected_clients = [] };
  service = record system.service { client_id = none; register_status = false };
}

-- A client of the daemon becomes ready, or is not any more.
abbrev toggled : ClientsManager → ClientsManager
toggled m = (toggle_client_ready_propertie 1 m).state

abbrev events : List ((ClientsManager → ClientsManager) × Event)
events =
    (toggled, starting outside)
    ∷ (toggled, signalled kind_started outside (7 ∷ 8 ∷ []))
    ∷ (toggled, report_yourself outside)
    ∷ (toggled, exiting outside)
    ∷ (toggled, starting outside)
    ∷ []

toggled-keeps :
    (j : ℕ) (m : ClientsManager)
    → contains j m.connected_clients ≡ true
    → contains j (toggled m).connected_clients ≡ true
toggled-keeps j m h = (toggle_client_ready_propertie-Same 1 m).connected j ∙ h

unregistered-Linked : Linked unregistered
unregistered-Linked r = absurd (ground (arith, r))

step_all-Linked_example : Linked (step_all events unregistered)
step_all-Linked_example =
    step_all-Linked events unregistered
      (
        (toggled-keeps, inl refl),
        (
          (toggled-keeps, refl),
          ((toggled-keeps, refl), ((toggled-keeps, inl refl), ((toggled-keeps, inl refl), tt))),
        ),
      )
      unregistered-Linked

abbrev answer_lost : Outside
answer_lost = record outside { unregister_delivery = reply_lost }

-- The daemon starts anew, and stops again.
abbrev restarted : ClientsManager → ClientsManager
restarted m = record m { connected_clients = []; num_active = 0 }

abbrev later_events : List ((ClientsManager → ClientsManager) × Event)
later_events =
    (restarted, starting outside) ∷ (toggled, changed outside) ∷ (restarted, stopping outside) ∷ []

daemon_is_stopping-Stale_example :
    Stale 3 (step_all later_events (daemon_is_stopping answer_lost system))
    × ((o : Outside)
        → daemon_is_starting o (step_all later_events (daemon_is_stopping answer_lost system))
          ≡ step_all later_events (daemon_is_stopping answer_lost system))
unfolding find is_some
daemon_is_stopping-Stale_example =
    daemon_is_stopping-Stale answer_lost 3 later_events system refl system-Known refl (
      λ m h. refl,
      (λ m h. (toggle_client_ready_propertie-Same 1 m).connected 3 ∙ h, (λ m h. refl, tt)),
    )
