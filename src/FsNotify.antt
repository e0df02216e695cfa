-- ===== src/FsNotify.antt =====
-- src/lib/utils/FSNotify.cpp: the watches on directories, each with the number of its references. A
-- path is a number; a descriptor of -1, or a failure of inotify_add_watch, is `none`. A batch of
-- events is what one read gives; a read that fails, and throws, is not among them.
pub mod References
pub mod Added
pub mod Held
use glogi_k.Prelude.{
  ℕ, ◌+◌, ◌%◌, ◌^◌, Bool, true, false, List, [], ◌∷◌, ◌++◌, Option, none, some, ◌==◌, if◌then◌else◌,
  Map, find, insert, assign, erase,
}
use glogi_k.Filesystem.{FileName, same_name}

pub record WatchedObject : Type 0 where
  pub wd : ℕ
  pub count : ℕ

abbrev pub Watches : Type 0
Watches = Map WatchedObject

-- addNotifyWatch: the descriptor comes with the watches; `none` is the exception.
unfoldable pub add_notify_watch : Option ℕ → ℕ → Watches → Option (ℕ × Watches)
add_notify_watch answer path watches = elim (find path watches) [
  | some w ↦ some (w.wd, assign path (record w { count = (w.count + 1) % 2 ^ 32 }) watches)
  | none ↦ elim answer [
    | none ↦ none
    | some wd ↦ some (wd, insert path (record { wd = wd; count = 1 }) watches)
  ]
]

unfoldable pub add_notify_directory_watch : Option ℕ → Bool → ℕ → Watches → Option (ℕ × Watches)
add_notify_directory_watch answer check_if_already_watched path watches =
    let added = add_notify_watch answer path watches in
    if check_if_already_watched
    then elim (find path watches) [ none ↦ added | some w ↦ some (w.wd, watches) ]
    else added

-- erase_if with findDescriptor, whose count is unsigned.
unfoldable pub find_descriptor : ℕ → Watches → Watches
find_descriptor wd [] = []
find_descriptor wd ((path, w) ∷ watches) =
    let rest = find_descriptor wd watches in
    let count = (w.count + 4294967295) % 2 ^ 32 in
    if w.wd == wd
    then (if count == 0 then rest else (path, record w { count = count }) ∷ rest)
    else (path, w) ∷ rest

unfoldable pub remove_notify_watch : Option ℕ → Watches → Watches
remove_notify_watch none watches = watches
remove_notify_watch (some wd) watches = find_descriptor wd watches

-- An event on a file inside a watched directory, or on the directory; `moved` and `ignored` are bits
-- of the mask.
pub data NotifyEvent : Type 0 where
  on_file : FileName → NotifyEvent
  on_object : (wd : ℕ) → (moved ignored : Bool) → NotifyEvent

-- The devices with their files, and the directories whose watch is to be removed.
pub record Reading : Type 0 where
  pub watches : Watches
  pub files_map : List (ℕ × FileName)
  pub to_remove : List ℕ

unfoldable pub keep_name : FileName → List (ℕ × FileName) → List (ℕ × FileName)
keep_name name [] = []
keep_name name ((device, file) ∷ files) =
    if same_name file name then (device, file) ∷ keep_name name files else keep_name name files

unfoldable pub path_of : ℕ → Watches → Option ℕ
path_of wd [] = none
path_of wd ((path, w) ∷ watches) = if w.wd == wd then some path else path_of wd watches

unfoldable pub read_event : NotifyEvent → Reading → Reading
read_event (on_file name) r = record r { files_map = keep_name name r.files_map }
read_event (on_object wd moved ignored) r = elim (path_of wd r.watches) [
  | none ↦ record r { files_map = [] }
  | some path ↦ record r {
    files_map = [];
    to_remove = if moved then path ∷ r.to_remove else r.to_remove;
    watches = if ignored then erase path r.watches else r.watches;
  }
]

unfoldable pub read_events : List NotifyEvent → Reading → Reading
read_events [] r = r
read_events (event ∷ events) r = read_events events (read_event event r)

-- The removal is forced by a count of one. The source has a set of paths: their order does not matter,
-- and a path that is twice in this list finds nothing the second time.
unfoldable pub force_remove : List ℕ → Watches → Watches
force_remove [] watches = watches
force_remove (path ∷ paths) watches = force_remove paths (elim (find path watches) [
  | none ↦ watches
  | some w ↦ remove_notify_watch (some w.wd) (assign path (record w { count = 1 }) watches)
])

unfoldable pub read_notify_events : List (List NotifyEvent) → Reading → Reading
read_notify_events [] r = r
read_notify_events (events ∷ batches) r =
    let r' = read_events events (record r { to_remove = [] }) in
    read_notify_events batches
      (record r' { watches = force_remove r'.to_remove r'.watches; to_remove = [] })
