-- ===== src/DevicesHandler/Containers/Notified.antt =====
-- The notification that a device is started or stopped.
use glogi_k.Prelude.{ℕ, true, [], ◌∷◌, none, some, ◌≡◌, arith, find, is_some, find-erase}
use glogi_k.DevicesManager.Disjoint.{find-put}
use glogi_k.DeviceProperties.{DeviceProperties}
use glogi_k.DevicesHandler.{DevicesHandler, World, show_notification}
use glogi_k.DevicesHandler.Containers.{
  to_started, to_stopped, notify, start_device, stop_started, stop_device,
}

-- A device that is only in the container of started ones is stopped, and then started again, both
-- with a notification: each of the two notifications shows the device through a reference to an
-- entry that was erased before.
pub stop_device-start_device-notified :
    (v w : World) (id : ℕ) (device : DeviceProperties) (h : DevicesHandler)
    → find id h.started_devices ≡ some device
    → find id h.stopped_devices ≡ none
    → ((stop_device v true id h).1 ≡ show_notification id none ∷ [])
      × ((start_device w true id (stop_device v true id h).0).1 ≡ show_notification id none ∷ [])
unfolding stop_device start_device stop_started to_started to_stopped notify is_some
stop_device-start_device-notified v w id device h s t =
    let first = find-erase id id h.started_devices in
    let second = find-erase id id (to_stopped id device h).stopped_devices in
    let stopped = find-put id id device h.stopped_devices in
    (ground (arith, s, t, first), ground (arith, s, t, first, second, stopped))
