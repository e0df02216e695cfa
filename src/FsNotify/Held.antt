-- ===== src/FsNotify/Held.antt =====
-- The references that callers hold, over any additions, with the check and without, and removals.
use glogi_k.Prelude.{
  ℕ, ◌+◌, ◌-◌, ◌<◌, ◌^◌, true, false, [], Option, none, some, ◌≡◌, refl, arith, ◌==◌, if◌then◌else◌,
  find, ◌∙◌, subst, Bool, Bool-cases, inl, inr, ◌∷◌,
}
use glogi_k.FsNotify.{
  WatchedObject, Watches, find_descriptor, add_notify_directory_watch, remove_notify_watch,
}
use glogi_k.FsNotify.References.{
  has_descriptor, count_of, IsTidy, find_descriptor-IsTidy, find_descriptor-count_of,
}
use glogi_k.FsNotify.Added.{add_notify_watch-present, add_notify_watch-absent}

unfoldable pub one_more : ℕ → (ℕ → ℕ) → ℕ → ℕ
one_more path held j = if path == j then held j + 1 else held j

unfoldable pub one_less : ℕ → (ℕ → ℕ) → ℕ → ℕ
one_less path held j = if path == j then held j - 1 else held j

-- The watches after additions and removals, and the references that are held then. An addition with
-- the check takes a reference only where the directory is not watched, and no inotify event, which can
-- end a watch, comes between the calls. inotify gives a new watch a descriptor that no other watch has; a count stays in its bounds.
pub data Reached : Watches → (ℕ → ℕ) → Type 0 where
  nothing : Reached [] (λ j. 0)
  referred :
      {m m' : Watches} {held : ℕ → ℕ}
      → (answer : Option ℕ) (path : ℕ) (w : WatchedObject) → Reached m held
      → find path m ≡ some w
      → held path + 1 < 2 ^ 32
      → add_notify_directory_watch answer false path m ≡ some (w.wd, m')
      → Reached m' (one_more path held)
  added :
      {m m' : Watches} {held : ℕ → ℕ}
      → (check : Bool) (path wd : ℕ) → Reached m held
      → find path m ≡ none
      → has_descriptor wd m ≡ false
      → add_notify_directory_watch (some wd) check path m ≡ some (wd, m')
      → Reached m' (one_more path held)
  checked :
      {m m' : Watches} {held : ℕ → ℕ}
      → (answer : Option ℕ) (path : ℕ) (w : WatchedObject) → Reached m held
      → find path m ≡ some w
      → add_notify_directory_watch answer true path m ≡ some (w.wd, m')
      → Reached m' held
  removed :
      {m : Watches} {held : ℕ → ℕ}
      → (path : ℕ) (w : WatchedObject) → Reached m held
      → find path m ≡ some w
      → Reached (remove_notify_watch (some w.wd) m) (one_less path held)

-- After any additions, with the check and without, and removals, starting from no watches and with no
-- inotify event between them: the count of each watch is the number of references that are held, so a
-- directory is watched as long as one is, and no longer. No descriptor stands for two directories.
pub Reached-counts :
    {m : Watches} {held : ℕ → ℕ} → Reached m held → IsTidy m × ((j : ℕ) → count_of j m ≡ held j)
unfolding IsTidy one_more one_less remove_notify_watch add_notify_directory_watch count_of find
Reached-counts nothing = (tt, λ j. refl)
Reached-counts (referred {m} {m'} {held} answer path w r e h a) =
    let (tidy, counts) = Reached-counts r in
    let bound : w.count + 1 < 2 ^ 32 = ground (arith, h, counts path, e) in
    let (m₂, b, tidy₂, counts₂) = add_notify_watch-present answer path w m tidy e bound in
    let same : m₂ ≡ m' = ground (arith, a, b) in
    subst (λ x. IsTidy x × ((j : ℕ) → count_of j x ≡ one_more path held j)) same
      (tidy₂, λ j. ground (arith, counts₂ j, counts j))
Reached-counts (added {m} {m'} {held} check path wd r e n a) =
    let (tidy, counts) = Reached-counts r in
    let (m₂, b, tidy₂, counts₂) = add_notify_watch-absent path wd m tidy e n in
    let same : m₂ ≡ m' = ground (arith, a, b) in
    subst (λ x. IsTidy x × ((j : ℕ) → count_of j x ≡ one_more path held j)) same
      (tidy₂, λ j. ground (arith, counts₂ j, counts j))
Reached-counts (checked {m} {m'} {held} answer path w r e a) =
    let same : m ≡ m' = ground (arith, a, e) in
    subst (λ x. IsTidy x × ((j : ℕ) → count_of j x ≡ held j)) same (Reached-counts r)
Reached-counts (removed {m} {held} path w r e) =
    let (tidy, counts) = Reached-counts r in
    (
      find_descriptor-IsTidy w.wd m tidy,
      λ j. find_descriptor-count_of path j w m tidy e ∙ ground (arith, counts j),
    )

IsTidy-unwatched : (j : ℕ) (m : Watches) → IsTidy m → count_of j m ≡ 0 → find j m ≡ none
unfolding IsTidy count_of find
IsTidy-unwatched j [] t z = refl
IsTidy-unwatched j ((path, w) ∷ m) (c, d, lo, hi, t) z = elim (Bool-cases (path == j)) [
  | inl q ↦ absurd (ground (arith, q, z, lo))
  | inr q ↦ ground (arith, q, IsTidy-unwatched j m t (ground (arith, q, z)))
]

-- One caller holds the only reference to a directory. Another one asks for the watch with the check that
-- saving a configuration file makes: it gets the descriptor, and the watches stay as they are. When it
-- gives the descriptor back, the directory is not watched any more, although the first caller has given
-- back nothing.
pub add_notify_directory_watch-remove_notify_watch :
    {m : Watches} {held : ℕ → ℕ}
    → (answer : Option ℕ) (path : ℕ) (w : WatchedObject) → Reached m held
    → held path ≡ 1
    → find path m ≡ some w
    → (m' : Watches) × (add_notify_directory_watch answer true path m ≡ some (w.wd, m'))
      × (find path m' ≡ some w)
      × Reached m' held
      × (find path (remove_notify_watch (some w.wd) m') ≡ none)
unfolding add_notify_directory_watch remove_notify_watch
add_notify_directory_watch-remove_notify_watch {m} {held} answer path w r one e =
    let (tidy, counts) = Reached-counts r in
    let again : add_notify_directory_watch answer true path m ≡ some (w.wd, m) =
      ground (arith, e) in
    let dropped = find_descriptor-count_of path path w m tidy e in
    let left : count_of path (find_descriptor w.wd m) ≡ 0 =
      ground (arith, dropped, counts path, one) in
    (
      m,
      again,
      e,
      checked answer path w r e again,
      IsTidy-unwatched path (find_descriptor w.wd m) (find_descriptor-IsTidy w.wd m tidy) left,
    )
