-- ===== src/DevicesHandler/Containers/Uniform.antt =====
-- What all devices of the service have in common, over any requests.
use glogi_k.Prelude.{
  ℕ, Bool, some, ◌≡◌, arith, ◌==◌, Map, find, assign, erase, is_some, find-assign, find-erase,
  Bool-cases, inl, inr, subst,
}
use glogi_k.DevicesManager.{put}
use glogi_k.DevicesManager.Disjoint.{find-put}
use glogi_k.DeviceProperties.{DeviceProperties, new_device_properties}
use glogi_k.DevicesHandler.{
  DevicesHandler, World, initialize_configuration_directory, set_device_properties,
}
use glogi_k.DevicesHandler.Containers.{
  reload, Request, start, stop, unplug, clear, save, reload_file,
}

abbrev pub AllIn : (DeviceProperties → Type 0) → Map DeviceProperties → Type 0
AllIn P m = (id : ℕ) (device : DeviceProperties) → find id m ≡ some device → P device

-- Every device that is started or stopped.
pub record AllDevices (P : DeviceProperties → Type 0) (h : DevicesHandler) : Type 0 where
  pub started : AllIn P h.started_devices
  pub stopped : AllIn P h.stopped_devices

-- What the answers of a world do to the devices, for each of the steps that change one.
pub record Keeps (P : DeviceProperties → Type 0) (w : World) : Type 0 where
  pub made :
      (id : ℕ) (h : DevicesHandler) → P (set_device_properties w id new_device_properties h).1
  pub watched :
      (check : Bool) (device : DeviceProperties)
      → P device
      → P (initialize_configuration_directory w check device).0
  pub reloaded : (device : DeviceProperties) → P device → P (reload w device)

unfoldable pub world_of : Request → World
world_of (start w notifications id) = w
world_of (stop w notifications id) = w
world_of (unplug w notifications id) = w
world_of (clear w notifications) = w
world_of (save w id) = w
world_of (reload_file w id) = w

module _ (P : DeviceProperties → Type 0) where
  pub AllIn-put :
      (id : ℕ) (new : DeviceProperties) (m : Map DeviceProperties)
      → P new
      → AllIn P m
      → AllIn P (put id new m)
  AllIn-put id new m p a j device e = elim (Bool-cases (id == j)) [
    | inl t ↦ let same : new ≡ device = ground (arith, e, t, find-put j id new m) in subst P same p
    | inr f ↦ a j device (ground (arith, e, f, find-put j id new m))
  ]

  pub AllIn-assign :
      (id : ℕ) (new : DeviceProperties) (m : Map DeviceProperties)
      → P new
      → AllIn P m
      → AllIn P (assign id new m)
  unfolding is_some
  AllIn-assign id new m p a j device e = elim (Bool-cases (id == j)) [
    | inl t ↦
        let same : new ≡ device = ground (arith, e, t, find-assign j id new m) in subst P same p
    | inr f ↦ a j device (ground (arith, e, f, find-assign j id new m))
  ]

  pub AllIn-erase : (id : ℕ) (m : Map DeviceProperties) → AllIn P m → AllIn P (erase id m)
  AllIn-erase id m a j device e = a j device (ground (arith, e, find-erase j id m))
