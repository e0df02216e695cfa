-- ===== src/DevicesHandler/Containers/DistinctFiles.antt =====
-- Over any requests the files stay distinct.
use glogi_k.Prelude.{
  ℕ, true, List, [], ◌∷◌, some, ◌≡◌, arith, ◌==◌, find, assign, is_some, find-assign, Option-cases,
  Bool-cases, inl, inr, ap,
}
use glogi_k.DeviceProperties.{DeviceProperties}
use glogi_k.DevicesHandler.{
  DevicesHandler, World, initialize_configuration_directory, is_in_ids, save_device_file,
}
use glogi_k.DevicesHandler.Containers.{
  clear_devices, save_device_configuration_file, reload, reload_device_configuration_file, Request,
  start, stop, unplug, clear, save, reload_file, handle, handle_all,
}
use glogi_k.DevicesHandler.Containers.Files.{file_of, DistinctFiles}
use glogi_k.DevicesHandler.Containers.FreshFiles.{load-file, watched-file}
use glogi_k.DevicesHandler.Containers.KeptFiles.{
  Keeps, Keeps-DistinctFiles, start_device-DistinctFiles, stop_device-DistinctFiles,
  unplug_device-DistinctFiles,
}

-- An entry is replaced by one with the same file.
assign-Keeps :
    (id : ℕ) (device new : DeviceProperties) (h : DevicesHandler)
    → new.config_file_path ≡ device.config_file_path
    → (find id h.started_devices ≡ some device
        → Keeps h (record h { started_devices = assign id new h.started_devices }))
      × (find id h.stopped_devices ≡ some device
          → Keeps h (record h { stopped_devices = assign id new h.stopped_devices }))
unfolding file_of is_some
assign-Keeps id device new h same = (
  λ e j name f. elim (Bool-cases (id == j)) [
    | inl q ↦
        let eq : id ≡ j = ground (arith, q) in
        ground (
          arith,
          e,
          f,
          same,
          q,
          ap (λ k. find k h.started_devices) eq,
          find-assign j id new h.started_devices,
        )
    | inr q ↦ ground (arith, f, q, find-assign j id new h.started_devices)
  ],
  λ e j name f. elim (Bool-cases (id == j)) [
    | inl q ↦
        let eq : id ≡ j = ground (arith, q) in
        ground (
          arith,
          e,
          f,
          same,
          q,
          ap (λ k. find k h.stopped_devices) eq,
          find-assign j id new h.stopped_devices,
        )
    | inr q ↦ ground (arith, f, q, find-assign j id new h.stopped_devices)
  ],
)

save_device_configuration_file-DistinctFiles :
    (w : World) (id : ℕ) (h : DevicesHandler)
    → DistinctFiles h
    → DistinctFiles (save_device_configuration_file w id h).0
unfolding save_device_configuration_file save_device_file file_of
save_device_configuration_file-DistinctFiles w id h d =
    elim (Option-cases (find id h.started_devices)) [
      | inl e ↦ rw (e, save_device_configuration_file) d
      | inr (device, e) ↦
          let new = (initialize_configuration_directory w true device).0 in
          let assigned = record h { started_devices = assign id new h.started_devices } in
          let keeps = (assign-Keeps id device new h (watched-file w true device)).0 e in
          rw (e, save_device_configuration_file)
            (Keeps-DistinctFiles h (save_device_file id new assigned).0 keeps d)
    ]

reload_device_configuration_file-DistinctFiles :
    (w : World) (id : ℕ) (h : DevicesHandler)
    → DistinctFiles h
    → DistinctFiles (reload_device_configuration_file w id h).0
unfolding reload_device_configuration_file reload file_of
reload_device_configuration_file-DistinctFiles w id h d =
    elim (Bool-cases (is_in_ids id h.ignored_fs_notifications)) [
      | inl t ↦ rw (t, reload_device_configuration_file) d
      | inr t ↦ elim (Option-cases (find id h.started_devices)) [
        | inr (device, e) ↦
            let new = reload w device in
            let keeps = (assign-Keeps id device new h (load-file _ device)).0 e in
            rw (t, e, reload_device_configuration_file)
              (Keeps-DistinctFiles h
                (record h { started_devices = assign id new h.started_devices }) keeps d)
        | inl e ↦ elim (Option-cases (find id h.stopped_devices)) [
          | inr (device, s) ↦
              let new = reload w device in
              let keeps = (assign-Keeps id device new h (load-file _ device)).1 s in
              rw (t, e, s, reload_device_configuration_file)
                (Keeps-DistinctFiles h
                  (record h { stopped_devices = assign id new h.stopped_devices }) keeps d)
          | inl s ↦ rw (t, e, s, reload_device_configuration_file) d
        ]
      ]
    ]

handle-DistinctFiles :
    (r : Request) (h : DevicesHandler) → DistinctFiles h → DistinctFiles (handle r h).0
unfolding handle clear_devices file_of find
handle-DistinctFiles (start w notifications id) h d =
    start_device-DistinctFiles w notifications id h d
handle-DistinctFiles (stop w notifications id) h d =
    stop_device-DistinctFiles w notifications id h d
handle-DistinctFiles (unplug w notifications id) h d =
    unplug_device-DistinctFiles w notifications id h d
handle-DistinctFiles (clear w notifications) h d = λ a b name ea eb. absurd (ground (arith, ea))
handle-DistinctFiles (save w id) h d = save_device_configuration_file-DistinctFiles w id h d
handle-DistinctFiles (reload_file w id) h d =
    reload_device_configuration_file-DistinctFiles w id h d

-- Whatever requests come, and whatever the daemon answers and the file system holds then, no two
-- devices that are started or stopped get the same configuration file. A device for which no name
-- is free has none, under the name "none".
pub handle_all-DistinctFiles :
    (rs : List Request) (h : DevicesHandler) → DistinctFiles h → DistinctFiles (handle_all rs h)
unfolding handle_all
handle_all-DistinctFiles [] h d = d
handle_all-DistinctFiles (r ∷ rs) h d =
    handle_all-DistinctFiles rs (handle r h).0 (handle-DistinctFiles r h d)
