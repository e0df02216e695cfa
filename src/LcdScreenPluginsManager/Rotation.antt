-- ===== src/LcdScreenPluginsManager/Rotation.antt =====
-- The search for the next LCD plugin ends, at the next enabled plugin in the order of the vector.
use glogi_k.Prelude.{
  ℕ, ◌+◌, ◌-◌, ◌≤◌, ◌<◌, ◌≡◌, ◌⊎◌, inl, inr, Bool, true, false, List, length, arith, ltb, leb, ◌==◌,
  Bool-cases, zero, suc, leb→le, leb→gt, ap, ◌∙◌, if◌then◌else◌,
}
use glogi_k.LcdScreenPluginsManager.{
  LcdPlugin, Search, found, infinite_loop, out_of_fuel, find_enabled, is_enabled, next_index,
}

-- How many times the iterator is moved from the plugin `i` to the plugin `j` of `n`.
abbrev pub rounds_to : ℕ → ℕ → ℕ → ℕ
rounds_to n i j = if ltb i j then j - i else (j + n) - i

abbrev pub NextEnabled : ℕ → List LcdPlugin → ℕ → Search → Type 0
NextEnabled mask ps i (found j) =
    (j < length ps)
    × (is_enabled mask ps j ≡ true)
    × ((k : ℕ)
        → k < length ps
        → rounds_to (length ps) i k < rounds_to (length ps) i j
        → is_enabled mask ps k ≡ false)
NextEnabled mask ps i infinite_loop = (k : ℕ) → k < length ps → is_enabled mask ps k ≡ false
NextEnabled mask ps i out_of_fuel = true ≡ false

-- The iterator has been moved `r` times from the plugin `first`.
abbrev At : ℕ → ℕ → ℕ → ℕ → Type 0
At n first i r = (i < n) × ((i ≡ first + r) ⊎ (i + n ≡ first + r))

next_index-At :
    (n first i r : ℕ) → first < n → r < n → At n first i r → At n first (next_index n i) (r + 1)
next_index-At n first i r f l (b, inl e) = (
  ground arith,
  elim (Bool-cases ((i + 1) == n)) [ inl t ↦ inr (ground arith) | inr t ↦ inl (ground arith) ],
)
next_index-At n first i r f l (b, inr e) = (ground arith, inr (ground arith))

rounds_to-At :
    (n first i r : ℕ) → first < n → 1 ≤ r → r ≤ n → At n first i r → rounds_to n first i ≡ r
rounds_to-At n first i r f p l (b, inl e) = ground arith
rounds_to-At n first i r f p l (b, inr e) = ground arith

rounds_to-injective :
    (n first i j : ℕ)
    → first < n
    → i < n
    → j < n
    → rounds_to n first i ≡ rounds_to n first j
    → i ≡ j
rounds_to-injective n first i j f a b e = ground arith

pub rounds_to_le :
    (n first i : ℕ) → first < n → i < n → (1 ≤ rounds_to n first i) × (rounds_to n first i ≤ n)
rounds_to_le n first i f a = (ground arith, ground arith)

rounds_to_self : (n first j : ℕ) → first < n → (j == first) ≡ true → rounds_to n first j ≡ n
rounds_to_self n first j f e = ground arith

rounds_to_all : (n first j : ℕ) → first < n → j < n → rounds_to n first j ≡ n → (j == first) ≡ true
rounds_to_all n first j f b e = ground arith

-- A property of all plugins that are reached in `r` rounds, and of the next.
one_more :
    (n first j r : ℕ) (p : ℕ → Bool)
    → first < n
    → j < n
    → rounds_to n first j ≡ r + 1
    → ((l : ℕ) → l < n → rounds_to n first l ≤ r → p l ≡ false)
    → p j ≡ false
    → (l : ℕ) → l < n
    → rounds_to n first l ≤ r + 1
    → p l ≡ false
one_more n first j r p f a e before off l b u = elim (Bool-cases (leb (rounds_to n first l) r)) [
  | inl t ↦ before l b (leb→le _ _ t)
  | inr t ↦
      let same : rounds_to n first l ≡ rounds_to n first j = omega (arith, leb→gt _ _ t, e, u) in
      ap p (rounds_to-injective n first l j f b a same) ∙ off
]

-- The search with `k` rounds left, from the place that is reached after `r` rounds.
pub find_enabled-NextEnabled :
    (k mask : ℕ) (ps : List LcdPlugin) (first i r : ℕ)
    → first < length ps
    → r < length ps
    → r + k ≡ length ps
    → At (length ps) first i r
    → ((j : ℕ) → j < length ps → rounds_to (length ps) first j ≤ r → is_enabled mask ps j ≡ false)
    → NextEnabled mask ps first (find_enabled k false mask ps first i)
unfolding find_enabled
find_enabled-NextEnabled zero mask ps first i r f c e at before = absurd (omega (arith, c, e))
find_enabled-NextEnabled (suc k) mask ps first i r f c e at before =
    let n = length ps in
    let j = next_index n i in
    let there = next_index-At n first i r f c at in
    let rounds = rounds_to-At n first j (r + 1) f (omega arith) (omega (arith, c)) there in
    let step = one_more n first j r (is_enabled mask ps) f there.0 rounds before in
    elim (Bool-cases (is_enabled mask ps j)) [
      | inl on ↦ rw (on) (there.0, on, λ l b u. before l b (omega (arith, rounds, u)))
      | inr off ↦ elim (Bool-cases (j == first)) [
        | inl t ↦
            rw (off, t)
              (λ l b. step off l b (
                omega
                  (arith, rounds, rounds_to_self n first j f t, (rounds_to_le n first l f b).1)))
        | inr t ↦
            let more : r + 1 < n = grind (arith, rounds_to_all n first j f there.0) in
            rw (off, t)
              (find_enabled-NextEnabled k mask ps first j (r + 1) f more (omega (arith, e)) there
                (step off))
      ]
    ]
