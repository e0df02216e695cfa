-- ===== src/Macro/Erase.antt =====
-- Erasing the redundant release events: every erase is in range, and takes what it is meant to take.
use mathlib.Core.List.{reverse, reverse-cons}
use glogi_k.Prelude.{
  ℕ, zero, suc, ◌+◌, ◌≤◌, ◌<◌, true, ◌&&◌, ◌≡◌, refl, some, List, [], ◌∷◌, ◌++◌, arith, ◌==◌, ◌∙◌,
  ap, if◌then◌else◌, length, get_elem?, keep_if, Option-cases, inl, inr,
}
use glogi_k.Types.{
  EventValue, KeyEvent, event_key_press, event_key_unknown, Macro, is_release, event_key_release,
}
use glogi_k.Macro.{
  MacroEvent, Vectors, push_event, fill_in_from, take_release, erase_at, erase_events,
}
use glogi_k.Macro.Counts.{pressed_event, releases, count_code}

-- `m'` is `m` without its element `k` at position `i`.
pub record ErasedAt (i : ℕ) (k : KeyEvent) (m m' : Macro) : Type 0 where
  pub shorter : length m ≡ suc (length m')
  pub before : (j : ℕ) → j < i → get_elem? m' j ≡ get_elem? m j
  pub kept : is_release k.event ≡ true → keep_if pressed_event m' ≡ keep_if pressed_event m
  pub counted :
      (c : ℕ) → releases c m ≡ releases c m' + (if is_release k.event && k.code == c then 1 else 0)

before_cons :
    (x : KeyEvent) (i : ℕ) (xs ys : Macro)
    → ((j : ℕ) → j < i → get_elem? ys j ≡ get_elem? xs j)
    → (j : ℕ) → j < suc i
    → get_elem? (x ∷ ys) j ≡ get_elem? (x ∷ xs) j
before_cons x i xs ys h zero lt = refl
before_cons x i xs ys h (suc j) lt = h j (omega arith)

pub erase_at-ErasedAt :
    (i : ℕ) (k : KeyEvent) (m : Macro)
    → get_elem? m i ≡ some k
    → (m' : Macro) × (erase_at i m ≡ some m') × ErasedAt i k m m'
unfolding erase_at
erase_at-ErasedAt i k [] h = cc
erase_at-ErasedAt zero k (x ∷ xs) h = (
  xs,
  refl,
  record {
    shorter = refl;
    before = λ j lt. elim lt [ ];
    kept = λ r. ground arith;
    counted = λ c. ground arith;
  },
)
erase_at-ErasedAt (suc i) k (x ∷ xs) h =
    let (m', e, ih) = erase_at-ErasedAt i k xs h in
    (
      x ∷ m',
      rw e refl,
      record {
        shorter = omega (arith, ih.shorter);
        before = before_cons x i xs m' ih.before;
        kept = λ r. ground (arith, ih.kept r);
        counted = λ c. ground (arith, ih.counted c);
      },
    )

-- The entries of an event vector in ascending order from position `i` on: each points at a release
-- event of the macro, and holds it.
abbrev pub Ascends : ℕ → List MacroEvent → Macro → Type 0
Ascends i [] m = Unit
Ascends i (e ∷ es) m =
    (i ≤ e.index)
    × (get_elem? m e.index ≡ some e.key)
    × (is_release e.key.event ≡ true)
    × Ascends (suc e.index) es m

pub Ascends-mono :
    (i j : ℕ) (es : List MacroEvent) (m : Macro) → j ≤ i → Ascends i es m → Ascends j es m
Ascends-mono i j [] m le a = tt
Ascends-mono i j (e ∷ es) m le a = (omega arith, a.1, a.2, a.3)

get_elem?-append :
    (m ys : Macro) (i : ℕ) {k : KeyEvent} → get_elem? m i ≡ some k → get_elem? (m ++ ys) i ≡ some k
get_elem?-append [] ys i h = cc
get_elem?-append (x ∷ xs) ys zero h = h
get_elem?-append (x ∷ xs) ys (suc i) h = get_elem?-append xs ys i h

pub Ascends-append :
    (i : ℕ) (es : List MacroEvent) (m ys : Macro) → Ascends i es m → Ascends i es (m ++ ys)
Ascends-append i [] m ys a = tt
Ascends-append i (e ∷ es) m ys a =
    (a.0, get_elem?-append m ys e.index a.1, a.2, Ascends-append (suc e.index) es m ys a.3)

-- The inner loop keeps the order of the release events that it leaves.
pub Ascends-take_release :
    (i : ℕ) (p : MacroEvent) (rs : List MacroEvent) (m : Macro) {r : MacroEvent}
    {rest : List MacroEvent}
    → take_release p rs ≡ some (r, rest)
    → Ascends i rs m
    → Ascends i rest m
unfolding take_release
Ascends-take_release i p [] m h a = cc
Ascends-take_release i p (x ∷ rs) m {r} {rest} h a = elim (Option-cases (take_release p rs)) [
  | inl e ↦ ground (arith, Ascends-mono (suc x.index) i rs m)
  | inr (t, e) ↦
      let ih = Ascends-take_release (suc x.index) p rs m {r = t.0} {rest = t.1} e a.3 in
      ground (arith, Ascends-mono (suc x.index) i rs m)
]

push_event-Ascends :
    (ev : EventValue) (k : KeyEvent) (i : ℕ) (v : Vectors) (m : Macro)
    → k.event ≡ ev
    → get_elem? m i ≡ some k
    → Ascends (suc i) v.released m
    → Ascends i (push_event ev (record { key = k; index = i }) v).released m
unfolding push_event
push_event-Ascends event_key_release k i v m e h a = (omega arith, h, rw e refl, a)
push_event-Ascends event_key_press k i v m e h a =
    Ascends-mono (suc i) i v.released m (omega arith) a
push_event-Ascends event_key_unknown k i v m e h a =
    Ascends-mono (suc i) i v.released m (omega arith) a

-- `fillInVectors` fills in ascending order.
pub fill_in-Ascends :
    (i : ℕ) (ks m : Macro)
    → ((j : ℕ) → get_elem? m (i + j) ≡ get_elem? ks j)
    → Ascends i (fill_in_from i ks).released m
unfolding fill_in_from push_event
fill_in-Ascends i [] m h = tt
fill_in-Ascends i (k ∷ ks) m h =
    let first : get_elem? m i ≡ some k = ap (get_elem? m) (omega arith) ∙ h 0 in
    let later : (j : ℕ) → get_elem? m (i + 1 + j) ≡ get_elem? ks j =
      λ j. ap (get_elem? m) (omega arith) ∙ h (suc j) in
    push_event-Ascends k.event k i (fill_in_from (i + 1) ks) m refl first (
      Ascends-mono (i + 1) (suc i) (fill_in_from (i + 1) ks).released m (omega arith)
        (fill_in-Ascends (i + 1) ks m later))

-- `m'` is `m` without the release events that `es` holds, all of them at `i` or after.
pub record ErasedAll (i : ℕ) (es : List MacroEvent) (m m' : Macro) : Type 0 where
  pub before : (j : ℕ) → j < i → get_elem? m' j ≡ get_elem? m j
  pub kept : keep_if pressed_event m' ≡ keep_if pressed_event m
  pub shorter : length m' ≤ length m
  pub counted : (c : ℕ) → releases c m ≡ releases c m' + count_code c es

erase_events-append :
    (xs : List MacroEvent) (e : MacroEvent) (m : Macro) {m₁ m₂ : Macro}
    → erase_events xs m ≡ some m₁
    → erase_at e.index m₁ ≡ some m₂
    → erase_events (xs ++ e ∷ []) m ≡ some m₂
unfolding erase_events
erase_events-append [] e m h h₂ = ground arith
erase_events-append (x ∷ xs) e m {m₁} {m₂} h h₂ = elim (Option-cases (erase_at x.index m)) [
  | inl p ↦ ground arith
  | inr (m', p) ↦ rw (p, erase_events) (erase_events-append xs e m' {m₁ = m₁} (ground arith) h₂)
]

-- Erasing from the last to the first never leaves the macro.
pub erase_events-ErasedAll :
    (i : ℕ) (es : List MacroEvent) (m : Macro)
    → Ascends i es m
    → (m' : Macro) × (erase_events (reverse es) m ≡ some m') × ErasedAll i es m m'
erase_events-ErasedAll i [] m a = (
  m,
  unfold erase_events in refl,
  record { before = λ j lt. refl; kept = refl; shorter = omega arith; counted = λ c. omega arith },
)
erase_events-ErasedAll i (e ∷ es) m a =
    let (m₁, p, all) = erase_events-ErasedAll (suc e.index) es m a.3 in
    let (m₂, q, one) =
      erase_at-ErasedAt e.index e.key m₁ (all.before e.index (omega arith) ∙ a.1) in
    (
      m₂,
      rw (reverse-cons e es) (erase_events-append (reverse es) e m p q),
      record {
        before = λ j lt. one.before j (omega arith) ∙ all.before j (omega arith);
        kept = one.kept a.2 ∙ all.kept;
        shorter = omega (arith, one.shorter, all.shorter);
        counted = λ c. ground (arith, one.counted c, all.counted c);
      },
    )
