-- ===== src/Scenarios/Notify.antt =====
-- A directory that two devices of a vendor share.
use glogi_k.Prelude.{
  ℕ, ◌==◌, ◌≢◌, inl, inr, Bool-cases, true, false, [], ◌∷◌, none, some, ◌≡◌, refl, arith, find,
  insert, assign, is_some,
}
use glogi_k.FsNotify.{
  on_file, read_event, read_events, keep_name, WatchedObject, Watches, add_notify_watch,
  add_notify_directory_watch, remove_notify_watch,
}
use glogi_k.Filesystem.{same_name}
use glogi_k.DeviceProperties.{new_device_properties, codes_none}
use glogi_k.DevicesHandler.{DevicesHandler}
use glogi_k.DevicesHandler.Containers.Files.{file_of, DistinctFiles}
use glogi_k.DevicesHandler.FilesMap.{
  insert_files, get_devices_files_map, reading_of, read_events-alone,
}
use glogi_k.Scenarios.Followers.{no_devices}
use glogi_k.FsNotify.References.{has_descriptor, count_of, IsTidy}
use glogi_k.FsNotify.Held.{
  Reached, nothing, added, referred, removed, one_more, one_less, Reached-counts,
  add_notify_directory_watch-remove_notify_watch,
}

abbrev one_reference : WatchedObject
one_reference = record { wd = 4; count = 1 }

abbrev two_references : WatchedObject
two_references = record { wd = 4; count = 2 }

abbrev watched_once : Watches
watched_once = (1, one_reference) ∷ []

abbrev watched_twice : Watches
watched_twice = (1, two_references) ∷ []

-- Both devices take a reference, and one gives it back.
shared :
    Reached
      (remove_notify_watch (some 4) watched_twice)
      (one_less 1 (one_more 1 (one_more 1 (λ j. 0))))
unfolding find insert assign is_some has_descriptor add_notify_watch add_notify_directory_watch
    one_more
shared =
    removed 1 two_references
      (referred none 1 one_reference (added false 1 4 nothing refl refl refl) refl (omega arith)
        refl)
      refl

Reached-counts_example :
    IsTidy (remove_notify_watch (some 4) watched_twice)
    × ((j : ℕ)
        → count_of j (remove_notify_watch (some 4) watched_twice)
          ≡ one_less 1 (one_more 1 (one_more 1 (λ j. 0))) j)
Reached-counts_example = Reached-counts shared

watched_once_found : find 1 watched_once ≡ some one_reference
unfolding find
watched_once_found = refl

-- One device takes the only reference.
held_once : Reached watched_once (one_more 1 (λ j. 0))
unfolding find insert is_some has_descriptor add_notify_watch add_notify_directory_watch
held_once = added true 1 4 nothing refl refl refl

held_by_one : one_more 1 (λ j. 0) 1 ≡ 1
unfolding one_more
held_by_one = refl

add_notify_directory_watch-remove_notify_watch_example :
    (m' : Watches) × (add_notify_directory_watch none true 1 watched_once ≡ some (4, m'))
    × (find 1 m' ≡ some one_reference)
    × Reached m' (one_more 1 (λ j. 0))
    × (find 1 (remove_notify_watch (some 4) m') ≡ none)
add_notify_directory_watch-remove_notify_watch_example =
    add_notify_directory_watch-remove_notify_watch none 1 one_reference held_once held_by_one
      watched_once_found

-- One device, and an event on its configuration file.
abbrev saved : DevicesHandler
saved = record no_devices {
  started_devices = (7, record new_device_properties { config_file_path = b'x' ∷ [] }) ∷ [];
}

saved-DistinctFiles : DistinctFiles saved
unfolding file_of find
saved-DistinctFiles a b name ea eb = elim (Bool-cases (7 == a)) [
  | inl p ↦ elim (Bool-cases (7 == b)) [
    | inl q ↦ inl (ground (arith, p, q))
    | inr q ↦ absurd (ground (arith, q, eb))
  ]
  | inr p ↦ absurd (ground (arith, p, ea))
]

saved_left :
    find 7 (read_events (on_file (b'x' ∷ []) ∷ []) (reading_of saved watched_once)).files_map
    ≡ some (b'x' ∷ [])
unfolding find read_events read_event reading_of get_devices_files_map insert_files insert keep_name
    same_name is_some
saved_left = refl

saved_is_none : b'x' ∷ [] ≢ codes_none
unfolding codes_none
saved_is_none e = absurd (ground (arith, e))

read_events-alone_example : (◌≡◌ {A = ℕ} 7 7) × (file_of saved 7 ≡ some (b'x' ∷ []))
read_events-alone_example =
    read_events-alone saved watched_once (b'x' ∷ []) [] 7 7 (b'x' ∷ []) (b'x' ∷ [])
      saved-DistinctFiles saved_is_none saved_left saved_left
