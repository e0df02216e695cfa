-- ===== src/DevicesHandler/FilesMap.antt =====
-- src/bin/service/devicesHandler.cpp, `getDevicesFilesMap`, and what is left of it when the events of
-- the file system are read: the devices whose configuration file is reloaded.
use glogi_k.Prelude.{
  ℕ, Bool, false, List, [], ◌∷◌, ◌++◌, Option, none, some, ◌≡◌, ◌≢◌, refl, arith, ◌==◌,
  if◌then◌else◌, Map, find, contains, insert, is_some, find-insert, find-append, Unique,
  Option-cases, Bool-cases, inl, inr, sym, subst, ap, ◌∙◌,
}
use glogi_k.Filesystem.{FileName, same_name}
use glogi_k.Filesystem.Names.{same_name→eq}
use glogi_k.DeviceProperties.{DeviceProperties, codes_none}
use glogi_k.DevicesHandler.{DevicesHandler}
use glogi_k.DevicesHandler.Containers.Files.{file_of, DistinctFiles}
use glogi_k.FsNotify.{
  NotifyEvent, on_file, on_object, Reading, Watches, keep_name, read_event, read_events,
}

-- One of the two loops, on the map that is made.
unfoldable pub insert_files : Map DeviceProperties → Map FileName → Map FileName
insert_files [] ret = ret
insert_files ((id, device) ∷ devices) ret =
    insert_files devices (insert id device.config_file_path ret)

unfoldable pub get_devices_files_map : DevicesHandler → Map FileName
get_devices_files_map h = insert_files h.stopped_devices (insert_files h.started_devices [])

-- The file of a device in a map of devices.
unfoldable pub file_in : ℕ → Map DeviceProperties → Option FileName
file_in id devices = elim (find id devices) [
  | none ↦ none
  | some device ↦ some device.config_file_path
]

find-insert_files :
    (id : ℕ) (devices : Map DeviceProperties) (ret : Map FileName)
    → find id (insert_files devices ret)
      ≡ (if contains id ret then find id ret else file_in id devices)
unfolding insert_files file_in find is_some
find-insert_files id [] ret = elim (Option-cases (find id ret)) [
  | inl e ↦ ground (arith, e)
  | inr (v, e) ↦ ground (arith, e)
]
find-insert_files id ((k, device) ∷ devices) ret = ground (
  arith,
  find-insert_files id devices (insert k device.config_file_path ret),
  find-insert id k device.config_file_path ret,
)

find-get_devices_files_map :
    (h : DevicesHandler) (id : ℕ) → find id (get_devices_files_map h) ≡ file_of h id
unfolding get_devices_files_map file_of file_in is_some find
find-get_devices_files_map h id = ground (
  arith,
  find-insert_files id h.stopped_devices (insert_files h.started_devices []),
  find-insert_files id h.started_devices [],
)

append-Unique :
    (k : ℕ) (name : FileName) (m : Map FileName)
    → Unique m
    → contains k m ≡ false
    → Unique (m ++ (k, name) ∷ [])
unfolding find is_some
append-Unique k name [] u c = (refl, tt)
append-Unique k name ((j, v) ∷ m) u c = (
  ground (arith, u.0, c, find-append j m ((k, name) ∷ [])),
  append-Unique k name m u.1 (ground (arith, c)),
)

insert-Unique : (k : ℕ) (name : FileName) (m : Map FileName) → Unique m → Unique (insert k name m)
unfolding insert
insert-Unique k name m u = elim (Bool-cases (contains k m)) [
  | inl t ↦ rw t u
  | inr f ↦ rw f (append-Unique k name m u f)
]

insert_files-Unique :
    (devices : Map DeviceProperties) (ret : Map FileName)
    → Unique ret
    → Unique (insert_files devices ret)
unfolding insert_files
insert_files-Unique [] ret u = u
insert_files-Unique ((k, device) ∷ devices) ret u =
    insert_files-Unique devices (insert k device.config_file_path ret)
      (insert-Unique k device.config_file_path ret u)

get_devices_files_map-Unique : (h : DevicesHandler) → Unique (get_devices_files_map h)
unfolding get_devices_files_map
get_devices_files_map-Unique h =
    insert_files-Unique h.stopped_devices (insert_files h.started_devices [])
      (insert_files-Unique h.started_devices [] tt)

contains-keep_name :
    (id : ℕ) (name : FileName) (m : Map FileName)
    → contains id m ≡ false
    → contains id (keep_name name m) ≡ false
unfolding keep_name find is_some
contains-keep_name id name [] c = refl
contains-keep_name id name ((k, file) ∷ m) c =
    ground (arith, c, contains-keep_name id name m (ground (arith, c)))

keep_name-Unique : (name : FileName) (m : Map FileName) → Unique m → Unique (keep_name name m)
unfolding keep_name
keep_name-Unique name [] u = tt
keep_name-Unique name ((k, file) ∷ m) u = elim (Bool-cases (same_name file name)) [
  | inl t ↦ rw t (contains-keep_name k name m u.0, keep_name-Unique name m u.1)
  | inr f ↦ rw f (keep_name-Unique name m u.1)
]

-- What is left was there before, and has the name.
find-keep_name :
    (id : ℕ) (name file : FileName) (m : Map FileName)
    → Unique m
    → find id (keep_name name m) ≡ some file
    → (find id m ≡ some file) × (file ≡ name)
unfolding keep_name find is_some
find-keep_name id name file [] u e = absurd (ground (arith, e))
find-keep_name id name file ((k, f) ∷ m) u e = elim (Bool-cases (same_name f name)) [
  | inl t ↦ elim (Bool-cases (k == id)) [
    | inl q ↦
        let first : f ≡ file = ground (arith, e, t, q) in
        (ground (arith, q, first), sym first ∙ same_name→eq f name t)
    | inr q ↦
        let (found, named) = find-keep_name id name file m u.1 (ground (arith, e, t, q)) in
        (ground (arith, q, found), named)
  ]
  | inr t ↦
      let (found, named) = find-keep_name id name file m u.1 (ground (arith, e, t)) in
      elim (Bool-cases (k == id)) [
        | inl q ↦
            let same : k ≡ id = ground (arith, q) in
            absurd (ground (arith, found, ap (λ x. contains x m) same, u.0))
        | inr q ↦ (ground (arith, q, found), named)
      ]
]

on_object-files_map :
    (wd : ℕ) (moved ignored : Bool) (r : Reading)
    → (read_event (on_object wd moved ignored) r).files_map ≡ []
unfolding read_event
on_object-files_map wd moved ignored r = ground arith

-- Further events only take devices away.
read_events-files_map :
    (events : List NotifyEvent) (r : Reading) (id : ℕ) (file : FileName)
    → Unique r.files_map
    → find id (read_events events r).files_map ≡ some file
    → find id r.files_map ≡ some file
unfolding read_events read_event find
read_events-files_map [] r id file u e = e
read_events-files_map (on_file name ∷ events) r id file u e =
    let r' = read_event (on_file name) r in
    let later = read_events-files_map events r' id file (keep_name-Unique name r.files_map u) e in
    (find-keep_name id name file r.files_map u later).0
read_events-files_map (on_object wd moved ignored ∷ events) r id file u e =
    let r' = read_event (on_object wd moved ignored) r in
    let cleared = on_object-files_map wd moved ignored r in
    let later = read_events-files_map events r' id file (subst Unique (sym cleared) tt) e in
    absurd (ground (arith, later, ap (find id) cleared))

-- The reading that starts with the devices of the service.
unfoldable pub reading_of : DevicesHandler → Watches → Reading
reading_of h watches = record {
  watches = watches;
  files_map = get_devices_files_map h;
  to_remove = [];
}

left-file_of :
    (h : DevicesHandler) (watches : Watches) (name : FileName) (events : List NotifyEvent) (id : ℕ)
    (file : FileName)
    → find id (read_events (on_file name ∷ events) (reading_of h watches)).files_map ≡ some file
    → file_of h id ≡ some name
unfolding read_events read_event reading_of
left-file_of h watches name events id file e =
    let m = get_devices_files_map h in
    let u = get_devices_files_map-Unique h in
    let later =
      read_events-files_map events (read_event (on_file name) (reading_of h watches)) id file
        (keep_name-Unique name m u) e in
    let (found, named) = find-keep_name id name file m u later in
    sym (find-get_devices_files_map h id) ∙ found ∙ ap some named

-- One read with an event on a file, whatever events follow it: of the devices of the service at most
-- one is left, and its configuration file is the one of the event. No two devices have the same file,
-- and the event is not on the name "none" of the devices without a file.
pub read_events-alone :
    (h : DevicesHandler) (watches : Watches) (name : FileName) (events : List NotifyEvent) (a b : ℕ)
    (file other : FileName)
    → DistinctFiles h
    → name ≢ codes_none
    → find a (read_events (on_file name ∷ events) (reading_of h watches)).files_map ≡ some file
    → find b (read_events (on_file name ∷ events) (reading_of h watches)).files_map ≡ some other
    → (a ≡ b) × (file_of h a ≡ some name)
read_events-alone h watches name events a b file other d n ea eb =
    let fa = left-file_of h watches name events a file ea in
    let fb = left-file_of h watches name events b other eb in
    elim (d a b name fa fb) [ inl same ↦ (same, fa) | inr e ↦ absurd (n e) ]
