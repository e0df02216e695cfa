-- ===== src/DevicesHandler/Containers/Files.antt =====
-- No two devices share a configuration file.
use glogi_k.Prelude.{
  ℕ, true, false, ◌||◌, List, [], ◌∷◌, ◌++◌, Option, none, some, ◌≡◌, ◌⊎◌, refl, arith, ◌==◌, Map,
  find, Option-cases, Bool-cases, inl, inr, ap,
}
use glogi_k.Filesystem.{FileName, is_in_set}
use glogi_k.Filesystem.Names.{same_name_self}
use glogi_k.DeviceProperties.{DeviceProperties, codes_none}
use glogi_k.DevicesHandler.{DevicesHandler, config_files}

-- The configuration file of a device that is started or stopped.
unfoldable pub file_of : DevicesHandler → ℕ → Option FileName
file_of h id = elim (find id h.started_devices) [
  | some device ↦ some device.config_file_path
  | none ↦ elim (find id h.stopped_devices) [
    | some device ↦ some device.config_file_path
    | none ↦ none
  ]
]

-- The name "none" stands for no file.
abbrev pub DistinctFiles : DevicesHandler → Type 0
DistinctFiles h =
    (a b : ℕ) (name : FileName)
    → file_of h a ≡ some name
    → file_of h b ≡ some name
    → (a ≡ b) ⊎ (name ≡ codes_none)

is_in_set-append :
    (name : FileName) (xs ys : List FileName)
    → is_in_set name (xs ++ ys) ≡ (is_in_set name xs || is_in_set name ys)
unfolding is_in_set
is_in_set-append name [] ys = refl
is_in_set-append name (x ∷ xs) ys = ground (arith, is_in_set-append name xs ys)

find-is_in_set :
    (id : ℕ) (device : DeviceProperties) (m : Map DeviceProperties)
    → find id m ≡ some device
    → is_in_set device.config_file_path (config_files m) ≡ true
unfolding find config_files is_in_set
find-is_in_set id device [] e = absurd (ground arith)
find-is_in_set id device ((k, d) ∷ m) e = elim (Bool-cases (k == id)) [
  | inl t ↦
      let same : d ≡ device = ground (arith, e, t) in
      rw (← same) (ground (arith, same_name_self d.config_file_path))
  | inr t ↦ ground (arith, find-is_in_set id device m (ground (arith, e, t)))
]

unfoldable pub already_used : DevicesHandler → List FileName
already_used h = config_files h.started_devices ++ config_files h.stopped_devices

pub file_of-already_used :
    (h : DevicesHandler) (name : FileName) (id : ℕ)
    → file_of h id ≡ some name
    → is_in_set name (already_used h) ≡ true
unfolding file_of already_used
file_of-already_used h name id e =
    let both =
      is_in_set-append name (config_files h.started_devices) (config_files h.stopped_devices) in
    elim (Option-cases (find id h.started_devices)) [
      | inr (device, s) ↦
          let same : device.config_file_path ≡ name = ground (arith, e, s) in
          let used = find-is_in_set id device h.started_devices s in
          ground (arith, both, ap (λ n. is_in_set n (config_files h.started_devices)) same, used)
      | inl s ↦ elim (Option-cases (find id h.stopped_devices)) [
        | inr (device, t) ↦
            let same : device.config_file_path ≡ name = ground (arith, e, s, t) in
            let used = find-is_in_set id device h.stopped_devices t in
            ground (arith, both, ap (λ n. is_in_set n (config_files h.stopped_devices)) same, used)
        | inl t ↦ absurd (ground (arith, e, s, t))
      ]
    ]

-- A device without a file, or with one that was not used before.
abbrev pub Unused : DevicesHandler → DeviceProperties → Type 0
Unused h device =
    (device.config_file_path ≡ codes_none)
    ⊎ (is_in_set device.config_file_path (already_used h) ≡ false)
