-- ===== src/FsNotify/References.antt =====
-- The watch of a directory is there as long as it is referred to.
use glogi_k.Prelude.{
  ℕ, ◌+◌, ◌-◌, ◌≤◌, ◌<◌, ◌%◌, ◌^◌, Bool, true, false, ◌||◌, [], ◌∷◌, none, some, ◌≡◌, refl, arith,
  ◌==◌, if◌then◌else◌, find, contains, is_some, Option-cases, Bool-cases, inl, inr, sym, if-holds,
  ap, ◌∙◌,
}
use glogi_k.FsNotify.{WatchedObject, Watches, find_descriptor}

unfoldable pub has_descriptor : ℕ → Watches → Bool
has_descriptor wd [] = false
has_descriptor wd ((path, w) ∷ watches) = w.wd == wd || has_descriptor wd watches

-- The number of references to the watch of a directory.
unfoldable pub count_of : ℕ → Watches → ℕ
count_of path watches = elim (find path watches) [ none ↦ 0 | some w ↦ w.count ]

-- No path and no descriptor twice, and counts that are those of an unsigned int.
unfoldable pub IsTidy : Watches → Type 0
IsTidy [] = Unit
IsTidy ((path, w) ∷ watches) =
    (contains path watches ≡ false)
    × (has_descriptor w.wd watches ≡ false)
    × (1 ≤ w.count)
    × (w.count < 2 ^ 32)
    × IsTidy watches

find_descriptor-absent :
    (wd : ℕ) (m : Watches) → has_descriptor wd m ≡ false → find_descriptor wd m ≡ m
unfolding has_descriptor find_descriptor
find_descriptor-absent wd [] h = refl
find_descriptor-absent wd ((path, w) ∷ m) h =
    ground (arith, h, find_descriptor-absent wd m (ground (arith, h)))

contains-find_descriptor :
    (j wd : ℕ) (m : Watches) → contains j m ≡ false → contains j (find_descriptor wd m) ≡ false
unfolding find find_descriptor is_some
contains-find_descriptor j wd [] h = refl
contains-find_descriptor j wd ((path, w) ∷ m) h =
    ground (arith, h, contains-find_descriptor j wd m (ground (arith, h)))

has_descriptor-find_descriptor :
    (x wd : ℕ) (m : Watches)
    → has_descriptor x m ≡ false
    → has_descriptor x (find_descriptor wd m) ≡ false
unfolding has_descriptor find_descriptor
has_descriptor-find_descriptor x wd [] h = refl
has_descriptor-find_descriptor x wd ((path, w) ∷ m) h =
    ground (arith, h, has_descriptor-find_descriptor x wd m (ground (arith, h)))

find-has_descriptor :
    (path : ℕ) (w : WatchedObject) (m : Watches)
    → find path m ≡ some w
    → has_descriptor w.wd m ≡ true
unfolding has_descriptor find
find-has_descriptor path w [] e = absurd (ground (arith, e))
find-has_descriptor path w ((p, v) ∷ m) e = elim (Bool-cases (p == path)) [
  | inl t ↦
      let same : v ≡ w = ground (arith, e, t) in
      ground (arith, ap (λ (x : WatchedObject). x.wd) same)
  | inr f ↦ ground (arith, find-has_descriptor path w m (ground (arith, e, f)))
]

pub find_descriptor-IsTidy : (wd : ℕ) (m : Watches) → IsTidy m → IsTidy (find_descriptor wd m)
unfolding IsTidy find_descriptor
find_descriptor-IsTidy wd [] t = tt
find_descriptor-IsTidy wd ((path, w) ∷ m) (c, d, lo, hi, t) =
    let rest = find_descriptor-IsTidy wd m t in
    let c' = contains-find_descriptor path wd m c in
    let d' = has_descriptor-find_descriptor w.wd wd m d in
    let left = (w.count + 4294967295) % 2 ^ 32 in
    if-holds IsTidy (w.wd == wd)
      (if left == 0
        then find_descriptor wd m
        else (path, record w { count = left }) ∷ find_descriptor wd m)
      ((path, w) ∷ find_descriptor wd m)
      (λ _.
        if-holds IsTidy (left == 0) (find_descriptor wd m)
          ((path, record w { count = left }) ∷ find_descriptor wd m) (λ _. rest)
          (λ f. (c', d', ground (arith, f), omega arith, rest)))
      (λ _. (c', d', lo, hi, rest))

find-none : (j : ℕ) (m : Watches) → contains j m ≡ false → find j m ≡ none
unfolding is_some
find-none j m h = elim (Option-cases (find j m)) [
  | inl e ↦ e
  | inr (w, e) ↦ absurd (ground (arith, e, h))
]

-- One reference less, of the first entry.
dropped-count_of :
    (p j : ℕ) (v : WatchedObject) (m : Watches)
    → contains p m ≡ false
    → 1 ≤ v.count
    → v.count < 2 ^ 32
    → count_of j (
        if (v.count + 4294967295) % 2 ^ 32 == 0
        then m
        else (p, record v { count = (v.count + 4294967295) % 2 ^ 32 }) ∷ m)
      ≡ (if p == j then v.count - 1 else count_of j m)
unfolding count_of find
dropped-count_of p j v m c lo hi =
    let left : (v.count + 4294967295) % 2 ^ 32 ≡ v.count - 1 = omega arith in
    rw left (elim (Bool-cases (p == j)) [
      | inl q ↦
          let same : p ≡ j = ground (arith, q) in
          ground (arith, q, find-none j m (ap (λ x. contains x m) (sym same) ∙ c), lo)
      | inr f ↦ ground (arith, f)
    ])

pub find_descriptor-count_of :
    (path j : ℕ) (w : WatchedObject) (m : Watches)
    → IsTidy m
    → find path m ≡ some w
    → count_of j (find_descriptor w.wd m) ≡ (if path == j then count_of j m - 1 else count_of j m)
unfolding IsTidy find_descriptor count_of find
find_descriptor-count_of path j w [] t e = absurd (ground (arith, e))
find_descriptor-count_of path j w ((p, v) ∷ m) (c, d, lo, hi, t) e = elim (Bool-cases (p == path)) [
  | inl q ↦
      let same : v ≡ w = ground (arith, e, q) in
      let wd : v.wd ≡ w.wd = ap (λ (x : WatchedObject). x.wd) same in
      let rest : find_descriptor w.wd m ≡ m =
        find_descriptor-absent w.wd m (ap (λ x. has_descriptor x m) (sym wd) ∙ d) in
      ground (
        arith,
        wd,
        q,
        find_descriptor-absent w.wd m (ap (λ x. has_descriptor x m) (sym wd) ∙ d),
        dropped-count_of p j v m c lo hi,
      )
  | inr f ↦
      let found : find path m ≡ some w = ground (arith, e, f) in
      let later = find-has_descriptor path w m found in
      let other : (v.wd == w.wd) ≡ false = (elim (Bool-cases (v.wd == w.wd)) [
        | inr g ↦ g
        | inl g ↦
            let equal : v.wd ≡ w.wd = ground (arith, g) in
            absurd (ground (arith, later, ap (λ x. has_descriptor x m) equal, d))
      ]) in
      let rest = find_descriptor-count_of path j w m t found in ground (arith, f, other, rest)
]
