-- ===== src/Macro/Balance.antt =====
-- `fixMacroReleaseEvents` repairs a macro: it never erases out of range, every key ends up with as
-- many release events as press events, and no press event is lost, added or moved.
use glogi_k.Prelude.{
  ℕ, ◌+◌, ◌≤◌, ◌≡◌, refl, some, List, [], ◌∷◌, ◌++◌, arith, ◌==◌, ◌∙◌, length, get_elem?, count_if,
  keep_if, Option-cases, inl, inr, ap,
}
use glogi_k.Types.{KeyEvent, Macro}
use glogi_k.Macro.{
  MacroEvent, fill_in_from, fill_in_vectors, take_release, add_missing, missing_release,
  fix_macro_release_events,
}
use glogi_k.Macro.Counts.{
  pressed_event, presses, releases, fill_in-presses, fill_in-releases, fill_in-length,
  add_missing-Added,
}
use glogi_k.Macro.Erase.{
  Ascends, Ascends-append, Ascends-take_release, fill_in-Ascends, erase_events-ErasedAll,
}

-- The redundant release events are still in place when the missing ones have been added.
add_missing-Ascends :
    (i : ℕ) (ps rs : List MacroEvent) (m : Macro)
    → Ascends i rs m
    → Ascends i (add_missing ps rs m).1 (add_missing ps rs m).0
unfolding add_missing
add_missing-Ascends i [] rs m a = a
add_missing-Ascends i (p ∷ ps) rs m a = elim (Option-cases (take_release p rs)) [
  | inl e ↦
      rw (e, add_missing)
        (add_missing-Ascends i ps rs (m ++ missing_release p ∷ [])
          (Ascends-append i rs m (missing_release p ∷ []) a))
  | inr (t, e) ↦
      rw (e, add_missing)
        (add_missing-Ascends i ps t.1 m (Ascends-take_release i p rs m {r = t.0} {rest = t.1} e a))
]

presses-keep_if :
    (c : ℕ) (m : Macro) → presses c m ≡ count_if (λ k. k.code == c) (keep_if pressed_event m)
presses-keep_if c [] = refl
presses-keep_if c (k ∷ ks) = ground (arith, presses-keep_if c ks)

-- A macro repaired: each key is released as often as it is pressed, the press events stand, and at
-- most one event is added for each of them.
pub record Repaired (macro m : Macro) : Type 0 where
  pub kept : keep_if pressed_event m ≡ keep_if pressed_event macro
  pub grown : length m ≤ length macro + count_if pressed_event macro
  pub balanced : (c : ℕ) → releases c m ≡ presses c m

-- For every macro, the repair of release events succeeds with no erase out of range; its result has
-- the press events of the macro, in their order, of each key as many release events as press
-- events, and at most one event more for each press event.
pub fix_macro_release_events-Repaired :
    (macro : Macro)
    → (m : Macro) × (fix_macro_release_events (fill_in_vectors macro) macro ≡ some m)
      × Repaired macro m
unfolding fix_macro_release_events fill_in_vectors
fix_macro_release_events-Repaired macro =
    let v = fill_in_from 0 macro in
    let added = add_missing v.pressed v.released macro in
    let facts = add_missing-Added v.pressed v.released macro in
    let shift : (j : ℕ) → get_elem? macro (0 + j) ≡ get_elem? macro j =
      λ j. ap (get_elem? macro) (omega arith) in
    let asc =
      add_missing-Ascends 0 v.pressed v.released macro (fill_in-Ascends 0 macro macro shift) in
    let (m, e, erased) = erase_events-ErasedAll 0 added.1 added.0 asc in
    let kept = erased.kept ∙ facts.kept in
    (
      m,
      e,
      record {
        kept = kept;
        grown = omega (arith, erased.shorter, facts.grown, fill_in-length 0 macro);
        balanced = λ c. omega (
          arith,
          erased.counted c,
          facts.paired c,
          fill_in-presses c 0 macro,
          fill_in-releases c 0 macro,
          presses-keep_if c m,
          presses-keep_if c macro,
          ap (count_if (λ (k : KeyEvent). k.code == c)) kept,
        );
      },
    )
