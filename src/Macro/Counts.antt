-- ===== src/Macro/Counts.antt =====
-- The measures by which the repair of macros is specified: the press and release events of a key,
-- and the entries of an event vector by key and by index.
use glogi_k.Prelude.{
  ℕ, ◌+◌, ◌<◌, Bool, ◌&&◌, ◌≡◌, refl, some, List, [], ◌∷◌, ◌++◌, arith, ◌==◌, if◌then◌else◌,
  count_if, count_if-append, ◌≤◌, length, length-append, keep_if, keep_if-append, Option-cases, inl,
  inr, ◌∙◌,
}
use mathlib.Core.List.{append-nil}
use glogi_k.Types.{KeyEvent, Macro, is_press, is_release}
use glogi_k.Macro.{MacroEvent, push_event, fill_in_from, take_release, missing_release, add_missing}

abbrev pub pressed_event : KeyEvent → Bool
pressed_event k = is_press k.event

-- How many press events of the key code the macro has, and how many release events.
abbrev pub presses : ℕ → Macro → ℕ
presses c = count_if (λ k. is_press k.event && k.code == c)

abbrev pub releases : ℕ → Macro → ℕ
releases c = count_if (λ k. is_release k.event && k.code == c)

abbrev pub count_code : ℕ → List MacroEvent → ℕ
count_code c = count_if (λ e. e.key.code == c)

abbrev pub count_index : ℕ → List MacroEvent → ℕ
count_index x = count_if (λ e. e.index == x)

-- The press events of a macro are those that `fillInVectors` finds; so for the release events.
pub fill_in-presses : (c i : ℕ) (m : Macro) → count_code c (fill_in_from i m).pressed ≡ presses c m
unfolding fill_in_from push_event
fill_in-presses c i [] = refl
fill_in-presses c i (k ∷ ks) = ground (arith, fill_in-presses c (i + 1) ks)

pub fill_in-releases :
    (c i : ℕ) (m : Macro) → count_code c (fill_in_from i m).released ≡ releases c m
unfolding fill_in_from push_event
fill_in-releases c i [] = refl
fill_in-releases c i (k ∷ ks) = ground (arith, fill_in-releases c (i + 1) ks)

pub record Taken (p r : MacroEvent) (rs rest : List MacroEvent) : Type 0 where
  pub code : r.key.code ≡ p.key.code
  pub later : p.index < r.index
  pub codes : (c : ℕ) → count_code c rs ≡ count_code c rest + (if p.key.code == c then 1 else 0)
  pub indexes : (x : ℕ) → count_index x rs ≡ count_index x rest + (if r.index == x then 1 else 0)

-- What the inner loop takes is a release event of the same key that comes later.
pub take_release-Taken :
    (p : MacroEvent) (rs : List MacroEvent) {r : MacroEvent} {rest : List MacroEvent}
    → take_release p rs ≡ some (r, rest)
    → Taken p r rs rest
unfolding take_release
take_release-Taken p [] h = cc
take_release-Taken p (x ∷ rs) {r} {rest} h = elim (Option-cases (take_release p rs)) [
  | inl e ↦ record {
    code = ground arith;
    later = ground arith;
    codes = λ c. ground arith;
    indexes = λ y. ground arith;
  }
  | inr (t, e) ↦
      let ih = take_release-Taken p rs {r = t.0} {rest = t.1} e in
      record {
        code = ground (arith, ih.code);
        later = ground (arith, ih.later);
        codes = λ c. ground (arith, ih.codes c);
        indexes = λ y. ground (arith, ih.indexes y);
      }
]

pub record Added (ps rs : List MacroEvent) (macro m : Macro) (rest : List MacroEvent) : Type 0 where
  pub kept : keep_if pressed_event m ≡ keep_if pressed_event macro
  pub grown : length m ≤ length macro + length ps
  pub paired :
      (c : ℕ)
      → releases c m + count_code c rs ≡ releases c macro + count_code c ps + count_code c rest

-- The first loop of `fixMacroReleaseEvents` adds one release event for each press event that takes
-- none.
pub add_missing-Added :
    (ps rs : List MacroEvent) (macro : Macro)
    → Added ps rs macro (add_missing ps rs macro).0 (add_missing ps rs macro).1
unfolding add_missing missing_release
add_missing-Added [] rs macro = record {
  kept = refl;
  grown = omega arith;
  paired = λ c. omega arith;
}
add_missing-Added (p ∷ ps) rs macro = elim (Option-cases (take_release p rs)) [
  | inl e ↦
      let ih = add_missing-Added ps rs (macro ++ missing_release p ∷ []) in
      rw (e, add_missing)
        (record {
          grown = omega (arith, ih.grown, length-append macro (missing_release p ∷ []));
          kept =
              ih.kept ∙ keep_if-append pressed_event macro (missing_release p ∷ []) ∙ append-nil _;
          paired = λ c. ground (
            arith,
            ih.paired c,
            count_if-append (λ k. is_release k.event && k.code == c) macro (missing_release p ∷ []),
          );
        })
  | inr (t, e) ↦
      let ih = add_missing-Added ps t.1 macro in
      let taken = take_release-Taken p rs {r = t.0} {rest = t.1} e in
      rw (e, add_missing)
        (record {
          grown = omega (arith, ih.grown);
          kept = ih.kept;
          paired = λ c. ground (arith, ih.paired c, taken.codes c);
        })
]

pub fill_in-length :
    (i : ℕ) (m : Macro) → length (fill_in_from i m).pressed ≡ count_if pressed_event m
unfolding fill_in_from push_event
fill_in-length i [] = refl
fill_in-length i (k ∷ ks) = ground (arith, fill_in-length (i + 1) ks)
