-- ===== src/Macro.antt =====
-- src/lib/shared/GKeysMacro.cpp and .hpp: the repair of a recorded macro. An erase through an
-- iterator past the end is undefined behaviour in the source, and `none` here.
pub mod Counts
pub mod Erase
pub mod Balance
pub mod Size
use glogi_k.Prelude.{
  ℕ, zero, suc, ◌+◌, ◌-◌, Bool, true, false, ◌&&◌, Option, none, some, List, [], ◌∷◌, ◌++◌, ltb,
  leb, ◌==◌, if◌then◌else◌, length, take,
}
use mathlib.Core.List.{reverse}
use glogi_k.Types.{
  EventValue, KeyEvent, Macro, event_key_release, event_key_press, event_key_unknown,
  macro_max_size,
}

pub record MacroEvent : Type 0 where
  pub key : KeyEvent
  pub index : ℕ

-- The two vectors that `fillInVectors` fills.
pub record Vectors : Type 0 where
  pub pressed : List MacroEvent
  pub released : List MacroEvent

-- One round of the loop, on what the later rounds find.
pub push_event : EventValue → MacroEvent → Vectors → Vectors
push_event event_key_press e v = record v { pressed = e ∷ v.pressed }
push_event event_key_release e v = record v { released = e ∷ v.released }
push_event event_key_unknown e v = v

pub fill_in_from : ℕ → Macro → Vectors
fill_in_from i [] = record { pressed = []; released = [] }
fill_in_from i (k ∷ ks) =
    push_event k.event (record { key = k; index = i }) (fill_in_from (i + 1) ks)

pub fill_in_vectors : Macro → Vectors
fill_in_vectors macro = fill_in_from 0 macro

-- The inner loop of both repairs: the first release event of the key that comes after the press
-- event, and the vector with that element erased.
pub take_release : MacroEvent → List MacroEvent → Option (MacroEvent × List MacroEvent)
take_release p [] = none
take_release p (r ∷ rs) =
    if p.key.code == r.key.code && ltb p.index r.index
    then some (r, rs)
    else elim (take_release p rs) [ none ↦ none | some (s, rest) ↦ some (s, r ∷ rest) ]

-- The release event that is added for a press event which has none.
pub missing_release : MacroEvent → KeyEvent
missing_release p = record { code = p.key.code; event = event_key_release; interval = 1 }

-- The first loop of `fixMacroReleaseEvents`: the macro grows at its end, and the release events that
-- are left over are the redundant ones.
pub add_missing : List MacroEvent → List MacroEvent → Macro → Macro × List MacroEvent
add_missing [] rs macro = (macro, rs)
add_missing (p ∷ ps) rs macro = elim (take_release p rs) [
  | some (r, rest) ↦ add_missing ps rest macro
  | none ↦ add_missing ps rs (macro ++ missing_release p ∷ [])
]

-- macro.erase(std::next(macro.begin(), index))
pub erase_at {ℓ} : {A : Type ℓ} → ℕ → List A → Option (List A)
erase_at i [] = none
erase_at zero (x ∷ xs) = some xs
erase_at (suc i) (x ∷ xs) = elim (erase_at i xs) [ none ↦ none | some ys ↦ some (x ∷ ys) ]

pub erase_events : List MacroEvent → Macro → Option Macro
erase_events [] macro = some macro
erase_events (r ∷ rs) macro = elim (erase_at r.index macro) [
  | none ↦ none
  | some m ↦ erase_events rs m
]

pub fix_macro_release_events : Vectors → Macro → Option Macro
fix_macro_release_events v macro =
    let (m, redundant) = add_missing v.pressed v.released macro in
    erase_events (reverse redundant) m

-- The first loop of `fixMacroSize`: the indexes of the press and release events that go together.
pub paired_indexes : List MacroEvent → List MacroEvent → List ℕ
paired_indexes [] rs = []
paired_indexes (p ∷ ps) rs = elim (take_release p rs) [
  | some (r, rest) ↦ p.index ∷ r.index ∷ paired_indexes ps rest
  | none ↦ paired_indexes ps rs
]

-- std::sort, kept from the back: the greatest index is the head, as the loop takes it first.
pub insert_index : ℕ → List ℕ → List ℕ
insert_index x [] = x ∷ []
insert_index x (y ∷ ys) = if leb y x then x ∷ y ∷ ys else y ∷ insert_index x ys

pub sort_indexes : List ℕ → List ℕ
sort_indexes [] = []
sort_indexes (x ∷ xs) = insert_index x (sort_indexes xs)

-- The `while` loop of `fixMacroSize`: two elements a round, as long as the macro is too long. The source
-- keeps the first index in a reference that `pop_back` makes invalid and assigns the second through it;
-- here the assignment reaches only the name, as it does where the storage of the vector stays.
pub shrink : List ℕ → Macro → Option Macro
shrink (i ∷ j ∷ rest) macro =
    let erased : Option Macro = elim (erase_at i macro) [ none ↦ none | some m ↦ erase_at j m ] in
    let next : Option Macro = elim erased [ none ↦ none | some m ↦ shrink rest m ] in
    if leb macro_max_size (length macro) then next else some macro
shrink (i ∷ []) macro = some macro
shrink [] macro = some macro

-- The last sanity check: a forced resize.
pub force_size : Macro → Macro
force_size macro =
    if leb macro_max_size (length macro) then take (macro_max_size - 1) macro else macro

pub fix_macro_size : Vectors → Macro → Option Macro
fix_macro_size v macro = elim (shrink (sort_indexes (paired_indexes v.pressed v.released)) macro) [
  | none ↦ none
  | some m ↦ some (force_size m)
]

pub check_macro : Macro → Option Macro
check_macro macro = elim (fix_macro_release_events (fill_in_vectors macro) macro) [
  | none ↦ none
  | some m ↦ if leb macro_max_size (length m) then fix_macro_size (fill_in_vectors m) m else some m
]
