-- ===== src/FsNotify/Added.antt =====
-- A watch that is added, or that is referred to once more.
use glogi_k.Prelude.{
  ℕ, ◌+◌, ◌<◌, ◌%◌, ◌^◌, false, ◌||◌, [], ◌∷◌, ◌++◌, Option, none, some, ◌≡◌, refl, arith, ◌==◌,
  if◌then◌else◌, find, contains, insert, assign, is_some, find-assign, find-insert, Bool-cases, inl,
  inr, sym, subst, if-holds, ap, ◌∙◌,
}
use glogi_k.FsNotify.{WatchedObject, Watches, add_notify_watch}
use glogi_k.FsNotify.References.{has_descriptor, count_of, IsTidy}

has_descriptor-assign :
    (x path count : ℕ) (w : WatchedObject) (m : Watches)
    → find path m ≡ some w
    → has_descriptor x (assign path (record w { count = count }) m) ≡ has_descriptor x m
unfolding has_descriptor assign find
has_descriptor-assign x path count w [] e = refl
has_descriptor-assign x path count w ((p, v) ∷ m) e = elim (Bool-cases (p == path)) [
  | inl t ↦
      let same : v ≡ w = ground (arith, e, t) in
      let wd : v.wd ≡ w.wd = ap (λ (o : WatchedObject). o.wd) same in ground (arith, t, wd)
  | inr f ↦ ground (arith, f, has_descriptor-assign x path count w m (ground (arith, e, f)))
]

contains-assign :
    (k path : ℕ) (w : WatchedObject) (m : Watches) → contains k (assign path w m) ≡ contains k m
unfolding is_some
contains-assign k path w m = ground (arith, find-assign k path w m)

assign-IsTidy :
    (path : ℕ) (w : WatchedObject) (m : Watches)
    → IsTidy m
    → find path m ≡ some w
    → w.count + 1 < 2 ^ 32
    → IsTidy (assign path (record w { count = (w.count + 1) % 2 ^ 32 }) m)
unfolding IsTidy assign find
assign-IsTidy path w [] t e h = tt
assign-IsTidy path w ((p, v) ∷ m) (c, d, lo, hi, t) e h =
    let count = (w.count + 1) % 2 ^ 32 in
    let more : WatchedObject = record w { count = count } in
    if-holds IsTidy (p == path) ((p, more) ∷ m) ((p, v) ∷ assign path more m)
      (λ q.
        let same : v ≡ w = ground (arith, e, q) in
        let wd : w.wd ≡ v.wd = sym (ap (λ (o : WatchedObject). o.wd) same) in
        (c, ap (λ x. has_descriptor x m) wd ∙ d, omega arith, omega arith, t))
      (λ f.
        let found : find path m ≡ some w = ground (arith, e, f) in
        (
          contains-assign p path more m ∙ c,
          has_descriptor-assign v.wd path count w m found ∙ d,
          lo,
          hi,
          assign-IsTidy path w m t found h,
        ))

append-contains :
    (k path : ℕ) (w : WatchedObject) (m : Watches)
    → contains k m ≡ false
    → (k == path) ≡ false
    → contains k (m ++ (path, w) ∷ []) ≡ false
unfolding find is_some
append-contains k path w [] c n = ground (arith, n)
append-contains k path w ((p, v) ∷ m) c n =
    ground (arith, c, append-contains k path w m (ground (arith, c)) n)

append-has_descriptor :
    (x path : ℕ) (w : WatchedObject) (m : Watches)
    → has_descriptor x (m ++ (path, w) ∷ []) ≡ (has_descriptor x m || w.wd == x)
unfolding has_descriptor
append-has_descriptor x path w [] = ground arith
append-has_descriptor x path w ((p, v) ∷ m) = ground (arith, append-has_descriptor x path w m)

append-IsTidy :
    (path wd : ℕ) (m : Watches)
    → IsTidy m
    → contains path m ≡ false
    → has_descriptor wd m ≡ false
    → IsTidy (m ++ (path, record { wd = wd; count = 1 }) ∷ [])
unfolding IsTidy has_descriptor find is_some
append-IsTidy path wd [] t c n = (refl, refl, omega arith, omega arith, tt)
append-IsTidy path wd ((p, v) ∷ m) (c', d, lo, hi, t) c n =
    let new : WatchedObject = record { wd = wd; count = 1 } in
    let other : (p == path) ≡ false = ground (arith, c) in
    (
      append-contains p path new m c' other,
      ground (arith, append-has_descriptor v.wd path new m, d, n),
      lo,
      hi,
      append-IsTidy path wd m t (ground (arith, c)) (ground (arith, n)),
    )

-- What adding a reference does: a path that is not watched needs a descriptor that no watch has.
pub add_notify_watch-present :
    (answer : Option ℕ) (path : ℕ) (w : WatchedObject) (m : Watches)
    → IsTidy m
    → find path m ≡ some w
    → w.count + 1 < 2 ^ 32
    → (m' : Watches) × (add_notify_watch answer path m ≡ some (w.wd, m'))
      × IsTidy m'
      × ((j : ℕ) → count_of j m' ≡ (if path == j then count_of j m + 1 else count_of j m))
unfolding add_notify_watch count_of is_some
add_notify_watch-present answer path w m t e h =
    let more : WatchedObject = record w { count = (w.count + 1) % 2 ^ 32 } in
    let plus : more.count ≡ w.count + 1 = omega arith in
    (
      assign path more m,
      ground (arith, e),
      assign-IsTidy path w m t e h,
      λ j. elim (Bool-cases (path == j)) [
        | inl q ↦
            let same : path ≡ j = ground (arith, q) in
            let found : find j m ≡ some w = ap (λ x. find x m) (sym same) ∙ e in
            ground (arith, q, found, find-assign j path more m, plus)
        | inr f ↦ ground (arith, f, find-assign j path more m)
      ],
    )

pub add_notify_watch-absent :
    (path wd : ℕ) (m : Watches)
    → IsTidy m
    → find path m ≡ none
    → has_descriptor wd m ≡ false
    → (m' : Watches) × (add_notify_watch (some wd) path m ≡ some (wd, m'))
      × IsTidy m'
      × ((j : ℕ) → count_of j m' ≡ (if path == j then count_of j m + 1 else count_of j m))
unfolding add_notify_watch count_of is_some insert
add_notify_watch-absent path wd m t e n =
    let new : WatchedObject = record { wd = wd; count = 1 } in
    let appended : insert path new m ≡ m ++ (path, new) ∷ [] = rw e refl in
    (
      insert path new m,
      ground (arith, e),
      subst IsTidy (sym appended) (append-IsTidy path wd m t (ground (arith, e)) n),
      λ j. elim (Bool-cases (path == j)) [
        | inl q ↦
            let same : path ≡ j = ground (arith, q) in
            let missing : find j m ≡ none = ap (λ x. find x m) (sym same) ∙ e in
            ground (arith, q, missing, find-insert j path new m)
        | inr f ↦ ground (arith, f, find-insert j path new m)
      ],
    )
