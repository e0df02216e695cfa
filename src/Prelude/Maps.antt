-- ===== src/Prelude/Maps.antt =====
-- Association lists with the operations of std::map; the first entry of a key counts.
use Prim.Native.Nat.{ℕ}
use mathlib.Core.Path.{◌≡◌, refl}
use mathlib.Core.Bool.{Bool, true, false}
use mathlib.Core.Option.{Option, none, some}
use mathlib.Core.Option
use mathlib.Core.List.{List, [], ◌∷◌, ◌++◌}
use native.Mathlib.Omega.{arith}
use glogi_k.Prelude.Tests.{◌==◌, if◌then◌else◌, Bool-cases}
use mathlib.Core.Logic.{inl, inr}

abbrev pub Map {ℓ} : Type ℓ → Type ℓ
Map A = List (ℕ × A)

module _ {ℓ} {A : Type ℓ} where
  -- std::map::at, `none` where it throws
  unfoldable pub find : ℕ → Map A → Option A
  find k [] = none
  find k ((j, v) ∷ m) = if j == k then some v else find k m

  unfoldable pub is_some : Option A → Bool
  is_some none = false
  is_some (some v) = true

  -- std::map::count
  abbrev pub contains : ℕ → Map A → Bool
  contains k m = is_some (find k m)

  -- std::map::insert, which does nothing on a key that is present
  unfoldable pub insert : ℕ → A → Map A → Map A
  insert k v m = if contains k m then m else m ++ (k, v) ∷ []

  -- assignment through a reference to an entry
  unfoldable pub assign : ℕ → A → Map A → Map A
  assign k v [] = []
  assign k v ((j, w) ∷ m) = if j == k then (j, v) ∷ m else (j, w) ∷ assign k v m

  -- std::map::erase
  unfoldable pub erase : ℕ → Map A → Map A
  erase k [] = []
  erase k ((j, v) ∷ m) = if j == k then erase k m else (j, v) ∷ erase k m

  -- the loop that erases the keys that fail a test
  unfoldable pub keep_keys : (ℕ → Bool) → Map A → Map A
  keep_keys p [] = []
  keep_keys p ((j, v) ∷ m) = if p j then (j, v) ∷ keep_keys p m else keep_keys p m

  unfoldable pub map_values : (A → A) → Map A → Map A
  map_values f [] = []
  map_values f ((j, v) ∷ m) = (j, f v) ∷ map_values f m

  pub find-append :
      (k : ℕ) (m n : Map A) → find k (m ++ n) ≡ (if contains k m then find k m else find k n)
  unfolding find is_some
  find-append k [] n = refl
  find-append k ((j, v) ∷ m) n = ground (arith, find-append k m n)

  pub find-insert :
      (k j : ℕ) (v : A) (m : Map A)
      → find k (insert j v m)
        ≡ (if j == k then (if contains k m then find k m else some v) else find k m)
  unfolding insert is_some find
  find-insert k j v m = ground (arith, find-append k m ((j, v) ∷ []))

  pub find-assign :
      (k j : ℕ) (v : A) (m : Map A)
      → find k (assign j v m)
        ≡ (if j == k then (if contains k m then some v else none) else find k m)
  unfolding assign is_some find
  find-assign k j v [] = ground arith
  find-assign k j v ((i, w) ∷ m) = ground (arith, find-assign k j v m)

  pub find-erase : (k j : ℕ) (m : Map A) → find k (erase j m) ≡ (if j == k then none else find k m)
  unfolding erase find
  find-erase k j [] = ground arith
  find-erase k j ((i, w) ∷ m) = ground (arith, find-erase k j m)

  pub find-keep_keys :
      (k : ℕ) (p : ℕ → Bool) (m : Map A) → find k (keep_keys p m) ≡ (if p k then find k m else none)
  unfolding keep_keys find
  find-keep_keys k p [] = ground arith
  find-keep_keys k p ((i, w) ∷ m) = ground (arith, find-keep_keys k p m)

  pub find-map_values :
      (k : ℕ) (f : A → A) (m : Map A) → find k (map_values f m) ≡ Option.map f (find k m)
  unfolding map_values find
  find-map_values k f [] = refl
  find-map_values k f ((i, w) ∷ m) = ground (arith, find-map_values k f m)

-- No key twice.
abbrev pub Unique {ℓ} : {A : Type ℓ} → Map A → Type 0
Unique [] = Unit
Unique ((k, v) ∷ m) = (contains k m ≡ false) × Unique m

module _ {ℓ} {A : Type ℓ} where
  pub erase-Unique : (k : ℕ) (m : Map A) → Unique m → Unique (erase k m)
  unfolding erase is_some
  erase-Unique k [] h = tt
  erase-Unique k ((j, v) ∷ m) h = elim (Bool-cases (j == k)) [
    | inl e ↦ rw (e, if◌then◌else◌) (erase-Unique k m h.1)
    | inr e ↦ rw (e, if◌then◌else◌) (ground (arith, h.0, find-erase j k m), erase-Unique k m h.1)
  ]

  pub assign-Unique : (k : ℕ) (v : A) (m : Map A) → Unique m → Unique (assign k v m)
  unfolding assign is_some
  assign-Unique k v [] h = tt
  assign-Unique k v ((j, w) ∷ m) h = elim (Bool-cases (j == k)) [
    | inl e ↦ rw (e, if◌then◌else◌) h
    | inr e ↦
        rw (e, if◌then◌else◌) (ground (arith, h.0, find-assign j k v m), assign-Unique k v m h.1)
  ]
