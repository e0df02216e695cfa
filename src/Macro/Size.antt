-- ===== src/Macro/Size.antt =====
-- `fixMacroSize` and `checkMacro`: no erase is out of range, and the result is short enough to be
-- stored.
use glogi_k.Prelude.{
  ℕ, zero, suc, ◌+◌, ◌-◌, ◌≤◌, ◌<◌, false, ◌≡◌, refl, some, List, [], ◌∷◌, arith, ◌==◌, ◌∙◌, leb,
  leb→gt, if◌then◌else◌, length, count_if, length-take, Option-cases, Bool-cases, inl, inr,
}
use glogi_k.Types.{Macro, macro_max_size}
use glogi_k.Macro.{
  MacroEvent, push_event, fill_in_from, fill_in_vectors, take_release, erase_at, paired_indexes,
  insert_index, sort_indexes, shrink, force_size, fix_macro_size, check_macro,
}
use glogi_k.Macro.Counts.{pressed_event, count_index, take_release-Taken}
use glogi_k.Macro.Balance.{Repaired, fix_macro_release_events-Repaired}

-- How often an index is listed.
count_eq : ℕ → List ℕ → ℕ
count_eq x [] = 0
count_eq x (y ∷ ys) = (if y == x then 1 else 0) + count_eq x ys

-- No index is listed twice, and all are below `n`.
abbrev Distinct : ℕ → List ℕ → Type 0
Distinct n [] = Unit
Distinct n (x ∷ xs) = (x < n) × (count_eq x xs ≡ 0) × Distinct n xs

-- Strictly descending, from below `n`.
abbrev Descends : ℕ → List ℕ → Type 0
Descends n [] = Unit
Descends n (x ∷ xs) = (x < n) × Descends x xs

insert_index-Descends :
    (n x : ℕ) (xs : List ℕ)
    → x < n
    → count_eq x xs ≡ 0
    → Descends n xs
    → Descends n (insert_index x xs)
unfolding insert_index count_eq
insert_index-Descends n x [] lt c d = (lt, tt)
insert_index-Descends n x (y ∷ ys) lt c d = ground (arith, insert_index-Descends y x ys)

count_eq-insert_index :
    (z x : ℕ) (xs : List ℕ)
    → count_eq z (insert_index x xs) ≡ (if x == z then 1 else 0) + count_eq z xs
unfolding insert_index count_eq
count_eq-insert_index z x [] = refl
count_eq-insert_index z x (y ∷ ys) = ground (arith, count_eq-insert_index z x ys)

count_eq-sort_indexes : (z : ℕ) (xs : List ℕ) → count_eq z (sort_indexes xs) ≡ count_eq z xs
unfolding sort_indexes count_eq
count_eq-sort_indexes z [] = refl
count_eq-sort_indexes z (x ∷ xs) =
    omega (arith, count_eq-insert_index z x (sort_indexes xs), count_eq-sort_indexes z xs)

sort_indexes-Descends : (n : ℕ) (xs : List ℕ) → Distinct n xs → Descends n (sort_indexes xs)
unfolding sort_indexes
sort_indexes-Descends n [] d = tt
sort_indexes-Descends n (x ∷ xs) d =
    insert_index-Descends n x (sort_indexes xs) d.0 (count_eq-sort_indexes x xs ∙ d.1)
      (sort_indexes-Descends n xs d.2)

-- Every position is in at most one of the two vectors, once, and lies in the macro.
pub record Apart (n : ℕ) (ps rs : List MacroEvent) : Type 0 where
  pub once : (x : ℕ) → count_index x ps + count_index x rs ≤ 1
  pub inside : (x : ℕ) → n ≤ x → count_index x ps + count_index x rs ≡ 0

fill_in_below :
    (i : ℕ) (ks : Macro) (x : ℕ)
    → x < i
    → count_index x (fill_in_from i ks).pressed + count_index x (fill_in_from i ks).released ≡ 0
unfolding fill_in_from push_event
fill_in_below i [] x lt = refl
fill_in_below i (k ∷ ks) x lt = ground (arith, fill_in_below (i + 1) ks x)

fill_in_once :
    (i : ℕ) (ks : Macro) (x : ℕ)
    → count_index x (fill_in_from i ks).pressed + count_index x (fill_in_from i ks).released ≤ 1
unfolding fill_in_from push_event
fill_in_once i [] x = omega arith
fill_in_once i (k ∷ ks) x = ground (arith, fill_in_once (i + 1) ks x, fill_in_below (i + 1) ks x)

fill_in_above :
    (i : ℕ) (ks : Macro) (x : ℕ)
    → i + length ks ≤ x
    → count_index x (fill_in_from i ks).pressed + count_index x (fill_in_from i ks).released ≡ 0
unfolding fill_in_from push_event
fill_in_above i [] x le = refl
fill_in_above i (k ∷ ks) x le = ground (arith, fill_in_above (i + 1) ks x)

count_eq-paired_indexes :
    (x : ℕ) (ps rs : List MacroEvent)
    → count_eq x (paired_indexes ps rs) ≤ count_index x ps + count_index x rs
unfolding paired_indexes count_eq
count_eq-paired_indexes x [] rs = omega arith
count_eq-paired_indexes x (p ∷ ps) rs = elim (Option-cases (take_release p rs)) [
  | inl e ↦ ground (arith, count_eq-paired_indexes x ps rs)
  | inr (t, e) ↦
      let taken = take_release-Taken p rs {r = t.0} {rest = t.1} e in
      ground (arith, count_eq-paired_indexes x ps t.1, taken.indexes x)
]

paired_indexes-Distinct :
    (n : ℕ) (ps rs : List MacroEvent) → Apart n ps rs → Distinct n (paired_indexes ps rs)
unfolding paired_indexes count_eq
paired_indexes-Distinct n [] rs a = tt
paired_indexes-Distinct n (p ∷ ps) rs a = elim (Option-cases (take_release p rs)) [
  | inl e ↦
      rw (e, paired_indexes)
        (paired_indexes-Distinct n ps rs (record {
          once = λ x. omega (arith, a.once x);
          inside = λ x le. omega (arith, a.inside x le);
        }))
  | inr (t, e) ↦
      let r = t.0 in
      let taken = take_release-Taken p rs {r = t.0} {rest = t.1} e in
      let rest : Distinct n (paired_indexes ps t.1) = paired_indexes-Distinct n ps t.1 (record {
        once = λ x. omega (arith, a.once x, taken.indexes x);
        inside = λ x le. omega (arith, a.inside x le, taken.indexes x);
      }) in
      rw (e, paired_indexes)
        (
          ground (arith, a.inside p.index),
          ground (
            arith,
            a.once p.index,
            taken.indexes p.index,
            count_eq-paired_indexes p.index ps t.1,
            taken.later,
          ),
          (
            ground (arith, a.inside r.index, taken.indexes r.index),
            ground (
              arith,
              a.once r.index,
              taken.indexes r.index,
              count_eq-paired_indexes r.index ps t.1,
            ),
            rest,
          ),
        )
]

erase_at_total :
    (i : ℕ) (m : Macro)
    → i < length m
    → (m' : Macro) × (erase_at i m ≡ some m') × (length m ≡ suc (length m'))
unfolding erase_at
erase_at_total i [] h = absurd (omega arith)
erase_at_total zero (x ∷ xs) h = (xs, refl, refl)
erase_at_total (suc i) (x ∷ xs) h =
    let (m', e, l) = erase_at_total i xs (omega arith) in (x ∷ m', rw e refl, omega arith)

Descends-mono : (n k : ℕ) (xs : List ℕ) → n ≤ k → Descends n xs → Descends k xs
Descends-mono n k [] le d = tt
Descends-mono n k (x ∷ xs) le d = (omega arith, d.1)

shrink_total :
    (xs : List ℕ) (m : Macro) → Descends (length m) xs → (m' : Macro) × (shrink xs m ≡ some m')
unfolding shrink
shrink_total [] m d = (m, refl)
shrink_total (i ∷ []) m d = (m, refl)
shrink_total (i ∷ j ∷ rest) m d =
    let (m₁, e₁, l₁) = erase_at_total i m d.0 in
    let (m₂, e₂, l₂) = erase_at_total j m₁ (omega arith) in
    let (m₃, e₃) = shrink_total rest m₂ (Descends-mono j (length m₂) rest (omega arith) d.1.1) in
    elim (Bool-cases (leb macro_max_size (length m))) [
      | inl long ↦ (m₃, ground arith)
      | inr short ↦ (m, ground arith)
    ]

force_size-length : (m : Macro) → length (force_size m) < macro_max_size
unfolding force_size
force_size-length m = ground (arith, length-take (macro_max_size - 1) m)

fix_macro_size_total :
    (m : Macro)
    → (m' : Macro) × (fix_macro_size (fill_in_vectors m) m ≡ some m') × (length m' < macro_max_size)
unfolding fix_macro_size fill_in_vectors
fix_macro_size_total m =
    let v = fill_in_from 0 m in
    let apart : Apart (length m) v.pressed v.released = record {
      once = fill_in_once 0 m;
      inside = λ x le. fill_in_above 0 m x (omega arith);
    } in
    let xs = paired_indexes v.pressed v.released in
    let (m₁, e) = shrink_total (sort_indexes xs) m (
      sort_indexes-Descends (length m) xs
        (paired_indexes-Distinct (length m) v.pressed v.released apart)) in
    (force_size m₁, rw (e, fix_macro_size) refl, force_size-length m₁)

-- For every macro whatever its events, `checkMacro` returns, no erase is out of range, and the
-- result has fewer than MACRO_T_MAX_SIZE events.
pub check_macro_total :
    (macro : Macro) → (m : Macro) × (check_macro macro ≡ some m) × (length m < macro_max_size)
unfolding check_macro
check_macro_total macro =
    let (m, e, _) = fix_macro_release_events-Repaired macro in
    let (m', e', short) = fix_macro_size_total m in
    elim (Bool-cases (leb macro_max_size (length m))) [
      | inl long ↦ (m', rw (e, check_macro) (rw (long, if◌then◌else◌) e'), short)
      | inr fits ↦ (
        m,
        rw (e, check_macro) (rw (fits, if◌then◌else◌) refl),
        leb→gt macro_max_size (length m) fits,
      )
    ]

-- A macro whose events and press events together are fewer than MACRO_T_MAX_SIZE is only repaired:
-- `checkMacro` gives its press events in their order, and of each key as many release events as
-- press events.
pub check_macro-Repaired :
    (macro : Macro)
    → length macro + count_if pressed_event macro < macro_max_size
    → (m : Macro) × (check_macro macro ≡ some m) × Repaired macro m
unfolding check_macro
check_macro-Repaired macro h =
    let (m, e, r) = fix_macro_release_events-Repaired macro in
    let short : leb macro_max_size (length m) ≡ false = ground (arith, r.grown) in
    (m, rw (e, check_macro) (rw (short, if◌then◌else◌) refl), r)
