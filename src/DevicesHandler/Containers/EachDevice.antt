-- ===== src/DevicesHandler/Containers/EachDevice.antt =====
-- Each call of the devices handler keeps what all devices have in common.
use glogi_k.Prelude.{
  ℕ, Bool, true, false, List, [], ◌∷◌, arith, find, contains, is_some, sym, Option-cases,
  Bool-cases, inl, inr, subst, All, if-holds,
}
use glogi_k.DeviceProperties.{DeviceProperties, new_device_properties}
use glogi_k.DevicesHandler.{
  DevicesHandler, World, Effect, initialize_configuration_directory, is_in_ids, save_device_file,
  set_device_properties,
}
use glogi_k.DevicesHandler.Containers.Status.{set_device_properties-containers}
use glogi_k.DevicesHandler.Containers.{
  put_started, to_started, to_stopped, initialize_and_start, start_device, stop_started,
  stop_device, unref_device, unplug_device, clear_devices, save_device_configuration_file, reload,
  reload_device_configuration_file, Request, start, stop, unplug, clear, save, reload_file, handle,
  handle_all,
}
use glogi_k.DevicesHandler.Containers.Uniform.{
  AllIn, AllDevices, Keeps, world_of, AllIn-put, AllIn-assign, AllIn-erase,
}

module _ (P : DeviceProperties → Type 0) where
  module _ (w : World) (k : Keeps P w) where
    start_device-AllDevices :
        (notifications : Bool) (id : ℕ) (h : DevicesHandler)
        → AllDevices P h
        → AllDevices P (start_device w notifications id h).0
    unfolding start_device initialize_and_start put_started to_started is_some
    start_device-AllDevices notifications id h a = elim (Option-cases (find id h.started_devices)) [
      | inr (device, e) ↦ rw (e, start_device) a
      | inl s ↦ elim (Option-cases (find id h.stopped_devices)) [
        | inr (device, e) ↦
            rw (s, e, start_device)
              (record {
                started = AllIn-put P id device h.started_devices (a.stopped id device e) a.started;
                stopped = AllIn-erase P id h.stopped_devices a.stopped;
              })
        | inl e ↦
            let made = set_device_properties w id new_device_properties h in
            let (cs, ct) = set_device_properties-containers w id new_device_properties h in
            rw (s, e, start_device)
              (record {
                started =
                    AllIn-put P id made.1 made.0.started_devices (k.made id h)
                      (subst (AllIn P) (sym cs) a.started);
                stopped = subst (AllIn P) (sym ct) a.stopped;
              })
      ]
    ]

    stop_started-AllDevices :
        (notifications : Bool) (id : ℕ) (h : DevicesHandler)
        → AllDevices P h
        → AllDevices P (stop_started notifications id h).0
    unfolding stop_started to_stopped
    stop_started-AllDevices notifications id h a = elim (Option-cases (find id h.started_devices)) [
      | inl e ↦ rw (e, stop_started) a
      | inr (device, e) ↦
          rw (e, stop_started)
            (record {
              started = AllIn-erase P id h.started_devices a.started;
              stopped = AllIn-put P id device h.stopped_devices (a.started id device e) a.stopped;
            })
    ]

    stop_device-AllDevices :
        (notifications : Bool) (id : ℕ) (h : DevicesHandler)
        → AllDevices P h
        → AllDevices P (stop_device w notifications id h).0
    unfolding stop_device
    stop_device-AllDevices notifications id h a =
        let started = start_device-AllDevices false id h a in
        if-holds (λ (r : DevicesHandler × List Effect). AllDevices P r.0)
          (contains id h.stopped_devices) _ _ (λ _. a)
          (λ _.
            if-holds (λ (r : DevicesHandler × List Effect). AllDevices P r.0)
              (contains id h.started_devices) _ _
              (λ _. stop_started-AllDevices notifications id h a)
              (λ _. stop_started-AllDevices notifications id (start_device w false id h).0 started))

    unref_device-AllDevices :
        (id : ℕ) (h : DevicesHandler) → AllDevices P h → AllDevices P (unref_device id h).0
    unfolding unref_device
    unref_device-AllDevices id h a = elim (Option-cases (find id h.stopped_devices)) [
      | inl e ↦ rw (e, unref_device) a
      | inr (device, e) ↦
          rw (e, unref_device)
            (record { started = a.started; stopped = AllIn-erase P id h.stopped_devices a.stopped })
    ]

    unplug_device-AllDevices :
        (notifications : Bool) (id : ℕ) (h : DevicesHandler)
        → AllDevices P h
        → AllDevices P (unplug_device w notifications id h).0
    unfolding unplug_device
    unplug_device-AllDevices notifications id h a =
        if-holds (λ (r : DevicesHandler × List Effect). AllDevices P r.0)
          (contains id h.stopped_devices) _ _ (λ _. unref_device-AllDevices id h a)
          (λ _.
            unref_device-AllDevices id (stop_device w notifications id h).0
              (stop_device-AllDevices notifications id h a))

    clear_devices-AllDevices :
        (notifications : Bool) (h : DevicesHandler)
        → AllDevices P (clear_devices w notifications h).0
    unfolding clear_devices find
    clear_devices-AllDevices notifications h = record {
      started = λ id device e. absurd (ground (arith, e));
      stopped = λ id device e. absurd (ground (arith, e));
    }

    save_device_configuration_file-AllDevices :
        (id : ℕ) (h : DevicesHandler)
        → AllDevices P h
        → AllDevices P (save_device_configuration_file w id h).0
    unfolding save_device_configuration_file save_device_file
    save_device_configuration_file-AllDevices id h a =
        elim (Option-cases (find id h.started_devices)) [
          | inl e ↦ rw (e, save_device_configuration_file) a
          | inr (device, e) ↦
              let new = (initialize_configuration_directory w true device).0 in
              rw (e, save_device_configuration_file)
                (record {
                  started =
                      AllIn-assign P id new h.started_devices
                        (k.watched true device (a.started id device e)) a.started;
                  stopped = a.stopped;
                })
        ]

    reload_device_configuration_file-AllDevices :
        (id : ℕ) (h : DevicesHandler)
        → AllDevices P h
        → AllDevices P (reload_device_configuration_file w id h).0
    unfolding reload_device_configuration_file
    reload_device_configuration_file-AllDevices id h a =
        elim (Bool-cases (is_in_ids id h.ignored_fs_notifications)) [
          | inl t ↦
              rw (t, reload_device_configuration_file)
                (record { started = a.started; stopped = a.stopped })
          | inr t ↦ elim (Option-cases (find id h.started_devices)) [
            | inr (device, e) ↦
                rw (t, e, reload_device_configuration_file)
                  (record {
                    started =
                        AllIn-assign P id (reload w device) h.started_devices
                          (k.reloaded device (a.started id device e)) a.started;
                    stopped = a.stopped;
                  })
            | inl e ↦ elim (Option-cases (find id h.stopped_devices)) [
              | inr (device, s) ↦
                  rw (t, e, s, reload_device_configuration_file)
                    (record {
                      started = a.started;
                      stopped =
                          AllIn-assign P id (reload w device) h.stopped_devices
                            (k.reloaded device (a.stopped id device s)) a.stopped;
                    })
              | inl s ↦ rw (t, e, s, reload_device_configuration_file) a
            ]
          ]
        ]

  handle-AllDevices :
      (r : Request) (h : DevicesHandler)
      → Keeps P (world_of r)
      → AllDevices P h
      → AllDevices P (handle r h).0
  unfolding handle world_of
  handle-AllDevices (start w notifications id) h k a =
      start_device-AllDevices w k notifications id h a
  handle-AllDevices (stop w notifications id) h k a =
      stop_device-AllDevices w k notifications id h a
  handle-AllDevices (unplug w notifications id) h k a =
      unplug_device-AllDevices w k notifications id h a
  handle-AllDevices (clear w notifications) h k a = clear_devices-AllDevices w k notifications h
  handle-AllDevices (save w id) h k a = save_device_configuration_file-AllDevices w k id h a
  handle-AllDevices (reload_file w id) h k a =
      reload_device_configuration_file-AllDevices w k id h a

  pub handle_all-AllDevices :
      (rs : List Request) (h : DevicesHandler)
      → All (λ r. Keeps P (world_of r)) rs
      → AllDevices P h
      → AllDevices P (handle_all rs h)
  unfolding handle_all
  handle_all-AllDevices [] h k a = a
  handle_all-AllDevices (r ∷ rs) h k a =
      handle_all-AllDevices rs (handle r h).0 k.1 (handle-AllDevices r h k.0 a)
