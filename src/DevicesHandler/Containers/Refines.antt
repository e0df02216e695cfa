-- ===== src/DevicesHandler/Containers/Refines.antt =====
-- The devices handler refines the specification of the statuses.
use glogi_k.Prelude.{
  ℕ, true, List, [], ◌∷◌, ◌≡◌, refl, arith, find, assign, is_some, find-assign, Option-cases,
  Bool-cases, inl, inr, ap, ◌∙◌,
}
use mathlib.Core.Path.{fun_ext}
use glogi_k.DeviceProperties.{DeviceProperties}
use glogi_k.DevicesHandler.{
  DevicesHandler, World, initialize_configuration_directory, is_in_ids, save_device_file,
}
use glogi_k.DevicesHandler.Containers.{
  save_device_configuration_file, reload_device_configuration_file, reload, Request, start, stop,
  unplug, clear, save, reload_file, handle, handle_all,
}
use glogi_k.DevicesHandler.Containers.Status.{status_of, specified, specified_all, Disjoint}
use glogi_k.DevicesHandler.Containers.Moves.{
  start_device-Sets, stop_device-Sets, unplug_device-Sets, clear_devices-status,
}

-- A call that leaves every status.
pub record Leaves (h h' : DevicesHandler) : Type 0 where
  pub disjoint : Disjoint h'
  pub status : (j : ℕ) → status_of h' j ≡ status_of h j

assign-Leaves :
    (id : ℕ) (device : DeviceProperties) (h : DevicesHandler)
    → Disjoint h
    → Leaves h (record h { started_devices = assign id device h.started_devices })
      × Leaves h (record h { stopped_devices = assign id device h.stopped_devices })
unfolding status_of is_some
assign-Leaves id device h d = (
  record {
    disjoint = λ j. ground (arith, d j, find-assign j id device h.started_devices);
    status = λ j. ground (arith, find-assign j id device h.started_devices);
  },
  record {
    disjoint = λ j. ground (arith, d j, find-assign j id device h.stopped_devices);
    status = λ j. ground (arith, find-assign j id device h.stopped_devices);
  },
)

save_device_configuration_file-Leaves :
    (w : World) (id : ℕ) (h : DevicesHandler)
    → Disjoint h
    → Leaves h (save_device_configuration_file w id h).0
unfolding save_device_configuration_file save_device_file status_of
save_device_configuration_file-Leaves w id h d = elim (Option-cases (find id h.started_devices)) [
  | inl e ↦ rw (e, save_device_configuration_file) (record { disjoint = d; status = λ j. refl })
  | inr (device, e) ↦
      let watched = (initialize_configuration_directory w true device).0 in
      let leaves = (assign-Leaves id watched h d).0 in
      rw (e, save_device_configuration_file)
        (record { disjoint = leaves.disjoint; status = leaves.status })
]

reload_device_configuration_file-Leaves :
    (w : World) (id : ℕ) (h : DevicesHandler)
    → Disjoint h
    → Leaves h (reload_device_configuration_file w id h).0
unfolding reload_device_configuration_file status_of
reload_device_configuration_file-Leaves w id h d =
    elim (Bool-cases (is_in_ids id h.ignored_fs_notifications)) [
      | inl t ↦
          rw (t, reload_device_configuration_file) (record { disjoint = d; status = λ j. refl })
      | inr t ↦ elim (Option-cases (find id h.started_devices)) [
        | inr (device, e) ↦
            rw (t, e, reload_device_configuration_file) (assign-Leaves id (reload w device) h d).0
        | inl e ↦ elim (Option-cases (find id h.stopped_devices)) [
          | inr (device, s) ↦
              rw (t, e, s, reload_device_configuration_file)
                (assign-Leaves id (reload w device) h d).1
          | inl s ↦
              rw (t, e, s, reload_device_configuration_file)
                (record { disjoint = d; status = λ j. refl })
        ]
      ]
    ]

handle-specified :
    (r : Request) (h : DevicesHandler)
    → Disjoint h
    → Disjoint (handle r h).0 × ((j : ℕ) → status_of (handle r h).0 j ≡ specified r (status_of h) j)
unfolding handle specified
handle-specified (start w notifications id) h d =
    let a = start_device-Sets w notifications id h d in (a.disjoint, a.status)
handle-specified (stop w notifications id) h d =
    let a = stop_device-Sets w notifications id h d in (a.disjoint, a.status)
handle-specified (unplug w notifications id) h d =
    let a = unplug_device-Sets w notifications id h d in (a.disjoint, a.status)
handle-specified (clear w notifications) h d = clear_devices-status w notifications h
handle-specified (save w id) h d =
    let a = save_device_configuration_file-Leaves w id h d in (a.disjoint, a.status)
handle-specified (reload_file w id) h d =
    let a = reload_device_configuration_file-Leaves w id h d in (a.disjoint, a.status)

-- Over any requests, from a state in which no device is started and stopped at once, the service's
-- containers implement their specification, a map from devices to statuses on which a request
-- assigns one status, forgets all devices, or does nothing: the statuses after all requests are those
-- of the specification, and no device is started and stopped at once.
pub handle_all-specified :
    (rs : List Request) (h : DevicesHandler)
    → Disjoint h
    → Disjoint (handle_all rs h) × (status_of (handle_all rs h) ≡ specified_all rs (status_of h))
unfolding handle_all specified_all
handle_all-specified [] h d = (d, refl)
handle_all-specified (r ∷ rs) h d =
    let (d₁, step) = handle-specified r h d in
    let (d₂, rest) = handle_all-specified rs (handle r h).0 d₁ in
    (d₂, rest ∙ ap (specified_all rs) (fun_ext step))
