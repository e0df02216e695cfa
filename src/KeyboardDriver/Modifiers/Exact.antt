-- ===== src/KeyboardDriver/Modifiers/Exact.antt =====
-- Which events `handleModifierKeys` records, as long as the size limits leave room for them.
use glogi_k.Prelude.{
  ℕ, ◌+◌, ◌-◌, ◌^◌, ◌≤◌, ◌<◌, Bool, true, false, not, ◌&&◌, List, [], ◌∷◌, ◌++◌, ◌≡◌, ◌≢◌, refl,
  sym, ap, ◌∙◌, arith, ltb, ◌==◌, if◌then◌else◌, length, length-append, Bool-cases, inl, inr, All,
  every_below, every_below_lem,
}
use mathlib.Core.List.{append-nil, append_assoc}
use glogi_k.Prelude.Bits.{has, has-sub, Within, Within-le}
use glogi_k.Types.{
  EventValue, Macro, event_key_press, event_key_release, is_release, macro_keypress_max_size,
  macro_max_size,
}
use glogi_k.UsbDevice.{Device}
use glogi_k.LogitechG510.{byte}
use glogi_k.KeyboardDriver.Modifiers.{
  ModifierKey, modifier_keys, Loop, skip_event, append_modifier, modifier_round, modifier_loop,
  handle_modifier_keys,
}
use glogi_k.KeyboardDriver.Modifiers.Size.{event_of, diff_of, start}

-- The events of the keys with these codes: the first has the interval given, the others 1.
abbrev pub timed : EventValue → ℕ → List ℕ → Macro
timed event interval [] = []
timed event interval (c ∷ cs) =
    record { code = c; event = event; interval = interval } ∷ timed event 1 cs

-- The codes of the modifier keys whose flag passes a test.
abbrev pub codes_where : (ℕ → Bool) → List ModifierKey → List ℕ
codes_where p [] = []
codes_where p (k ∷ ks) = if p k.key then k.code ∷ codes_where p ks else codes_where p ks

-- The codes that the loop meets as it takes `diff` apart.
met : List ModifierKey → ℕ → List ℕ
met [] d = []
met (k ∷ ks) d =
    let d' = if has d k.key then d - k.key else d in
    let rest = if d' == 0 then [] else met ks d' in if has d k.key then k.code ∷ rest else rest

abbrev pub limit : EventValue → ℕ
limit event = if is_release event then macro_max_size else macro_keypress_max_size

abbrev next_interval : Loop → ℕ
next_interval s = if ltb 0 s.ret then 1 else s.interval

append_modifier_lem :
    (event : EventValue) (k : ModifierKey) (s : Loop)
    → length s.macro < limit event
    → append_modifier event k s ≡ record s {
      macro = s.macro ++ record { code = k.code; event = event; interval = next_interval s } ∷ [];
      interval = next_interval s;
      ret = s.ret + 1;
    }
unfolding append_modifier skip_event
append_modifier_lem event k s h = ground arith

-- The variables after a round that records an event.
abbrev recorded : EventValue → ModifierKey → Loop → Loop
recorded event k s = record {
  macro = s.macro ++ record { code = k.code; event = event; interval = next_interval s } ∷ [];
  interval = next_interval s;
  diff = s.diff - k.key;
  ret = s.ret + 1;
}

hit_lem :
    (event : EventValue) (k : ModifierKey) (s : Loop)
    → has s.diff k.key ≡ true
    → length s.macro < limit event
    → modifier_round event k s ≡ recorded event k s
unfolding modifier_round
hit_lem event k s e h =
    rw (e, if◌then◌else◌) (append_modifier_lem event k (record s { diff = s.diff - k.key }) h)

miss_lem :
    (event : EventValue) (k : ModifierKey) (s : Loop)
    → has s.diff k.key ≡ false
    → modifier_round event k s ≡ s
unfolding modifier_round
miss_lem event k s e = rw (e, if◌then◌else◌)

modifier_loop_step :
    (event : EventValue) (k : ModifierKey) (ks : List ModifierKey) (s s' : Loop)
    → modifier_round event k s ≡ s'
    → (modifier_loop event (k ∷ ks) s).0.macro
      ≡ (if s'.diff == 0 then s'.macro else (modifier_loop event ks s').0.macro)
unfolding modifier_loop
modifier_loop_step event k ks s s' r = rw r (ground arith)

modifier_loop-met :
    (event : EventValue) (ks : List ModifierKey) (s : Loop)
    → length s.macro + length ks ≤ limit event
    → (modifier_loop event ks s).0.macro ≡ s.macro ++ timed event (next_interval s) (met ks s.diff)
unfolding met
modifier_loop-met event [] s h = unfold modifier_loop in sym (append-nil s.macro)
modifier_loop-met event (k ∷ ks) s h = elim (Bool-cases (has s.diff k.key)) [
  | inl e ↦
      let s' = recorded event k s in
      let added : Macro =
        record { code = k.code; event = event; interval = next_interval s } ∷ [] in
      modifier_loop_step event k ks s s' (hit_lem event k s e (omega arith))
      ∙ ground (
        arith,
        modifier_loop-met event ks s' (omega (arith, length-append s.macro added)),
        append_assoc s.macro added (timed event 1 (met ks (s.diff - k.key))),
      )
  | inr e ↦
      modifier_loop_step event k ks s s (miss_lem event k s e)
      ∙ ground (arith, modifier_loop-met event ks s, append-nil s.macro)
]

same_codes : List ℕ → List ℕ → Bool
same_codes [] [] = true
same_codes [] (y ∷ ys) = false
same_codes (x ∷ xs) [] = false
same_codes (x ∷ xs) (y ∷ ys) = x == y && same_codes xs ys

same_codes_lem : (xs ys : List ℕ) → same_codes xs ys ≡ true → xs ≡ ys
unfolding same_codes
same_codes_lem [] [] h = refl
same_codes_lem [] (y ∷ ys) h = cc
same_codes_lem (x ∷ xs) [] h = cc
same_codes_lem (x ∷ xs) (y ∷ ys) h = ground (arith, same_codes_lem xs ys)

every_met :
    every_below 256 (λ d. same_codes (met modifier_keys d) (codes_where (has d) modifier_keys))
    ≡ true
unfolding every_below same_codes met
every_met = refl

-- For every byte the loop meets the codes of the flags that are set in it.
met-codes_where : (d : ℕ) → d < 256 → met modifier_keys d ≡ codes_where (has d) modifier_keys
met-codes_where d h = same_codes_lem _ _ (
    every_below_lem 256
      (λ (x : ℕ). same_codes (met modifier_keys x) (codes_where (has x) modifier_keys)) d every_met
      h)

-- The packet has another modifier byte than the one before, and the macro has room for eight events
-- more of their kind.
pub record Changed (d : Device) : Type 0 where
  pub before_byte : byte d.previous_pressed_keys 1 < 256
  pub now_byte : byte d.pressed_keys 1 < 256
  pub differ : byte d.previous_pressed_keys 1 ≢ byte d.pressed_keys 1
  pub room : length d.new_macro + 8 ≤ limit (event_of d)

handle_modifier_keys-macro :
    (interval : ℕ) (d : Device)
    → Changed d
    → (handle_modifier_keys interval d).0.new_macro
      ≡ d.new_macro ++ timed (event_of d) interval (codes_where (has (diff_of d)) modifier_keys)
unfolding handle_modifier_keys
handle_modifier_keys-macro interval d c = ground (
  arith,
  modifier_loop-met (event_of d) modifier_keys (start interval d) c.room,
  met-codes_where (diff_of d),
)

codes_where-ext :
    (p q : ℕ → Bool) (ks : List ModifierKey)
    → All (λ k. p k.key ≡ q k.key) ks
    → codes_where p ks ≡ codes_where q ks
codes_where-ext p q [] h = refl
codes_where-ext p q (k ∷ ks) h = ground (arith, codes_where-ext p q ks h.1)

codes_where-sub :
    (a b : ℕ)
    → Within a b
    → codes_where (has (b - a)) modifier_keys
      ≡ codes_where (λ flag. has b flag && not (has a flag)) modifier_keys
codes_where-sub a b w =
    let at = λ (k : ℕ). has-sub a b k w in
    codes_where-ext (has (b - a)) (λ flag. has b flag && not (has a flag)) modifier_keys
      (at 0, (at 1, (at 2, (at 3, (at 4, (at 5, (at 6, (at 7, tt))))))))

timed_cong :
    (m : Macro) (interval : ℕ) (e e' : EventValue) (xs ys : List ℕ)
    → e ≡ e'
    → xs ≡ ys
    → m ++ timed e interval xs ≡ m ++ timed e' interval ys
timed_cong m interval e e' xs ys p q = cc

-- If all modifier keys that were down still are, and more are, the macro gets one press event for
-- each key that is newly down, in the order of the table, the first with the time interval. It has
-- room for eight press events.
pub handle_modifier_keys_press :
    (interval : ℕ) (d : Device)
    → Changed d
    → Within (byte d.previous_pressed_keys 1) (byte d.pressed_keys 1)
    → (handle_modifier_keys interval d).0.new_macro
      ≡ d.new_macro
        ++ timed event_key_press interval (
            codes_where
              (λ flag.
                has (byte d.pressed_keys 1) flag && not (has (byte d.previous_pressed_keys 1) flag))
              modifier_keys)
handle_modifier_keys_press interval d c w =
    let before = byte d.previous_pressed_keys 1 in
    let now = byte d.pressed_keys 1 in
    let e : event_of d ≡ event_key_press = ground (arith, Within-le before now w) in
    let f : diff_of d ≡ now - before = ground (arith, Within-le before now w) in
    handle_modifier_keys-macro interval d c
    ∙ timed_cong d.new_macro interval (event_of d) event_key_press _ _ e
        (ap (λ (x : ℕ). codes_where (has x) modifier_keys) f ∙ codes_where-sub before now w)

-- If no modifier key is newly down, and some are up again, the macro gets one release event for each
-- of those, in the order of the table, the first with the time interval. It has room for eight
-- release events.
pub handle_modifier_keys_release :
    (interval : ℕ) (d : Device)
    → Changed d
    → Within (byte d.pressed_keys 1) (byte d.previous_pressed_keys 1)
    → (handle_modifier_keys interval d).0.new_macro
      ≡ d.new_macro
        ++ timed event_key_release interval (
            codes_where
              (λ flag.
                has (byte d.previous_pressed_keys 1) flag && not (has (byte d.pressed_keys 1) flag))
              modifier_keys)
handle_modifier_keys_release interval d c w =
    let before = byte d.previous_pressed_keys 1 in
    let now = byte d.pressed_keys 1 in
    let e : event_of d ≡ event_key_release = ground (arith, Within-le now before w, c.differ) in
    let f : diff_of d ≡ before - now = ground (arith, Within-le now before w, c.differ) in
    handle_modifier_keys-macro interval d c
    ∙ timed_cong d.new_macro interval (event_of d) event_key_release _ _ e
        (ap (λ (x : ℕ). codes_where (has x) modifier_keys) f ∙ codes_where-sub now before w)

swapped : ℕ → ℕ → Bool
swapped i j =
    if ltb i j
    then ltb (2 ^ i) (2 ^ j) && (has (2 ^ j - 2 ^ i) (2 ^ i) && not (has (2 ^ j - 2 ^ i) (2 ^ j)))
    else true

every_swapped : every_below 8 (λ i. every_below 8 (λ j. swapped i j)) ≡ true
unfolding every_below swapped
every_swapped = refl

swapped_lem : (i j : ℕ) → i < 8 → j < 8 → swapped i j ≡ true
swapped_lem i j hi hj =
    every_below_lem 8 (λ (y : ℕ). swapped i y) j
      (every_below_lem 8 (λ (x : ℕ). every_below 8 (λ y. swapped x y)) i every_swapped hi) hj

-- Before the packet exactly one modifier key is down, that of bit `i`, and in it exactly one, that of a
-- higher bit `j`, while a macro is recorded that has room for eight events: no release event is recorded,
-- and those that are recorded are press events of the keys whose bit is in `2 ^ j - 2 ^ i`. The key that
-- went up is one of them, and the key that went down is not.
pub handle_modifier_keys_swap :
    (interval i j : ℕ) (d : Device)
    → Changed d
    → i < j
    → j < 8
    → byte d.previous_pressed_keys 1 ≡ 2 ^ i
    → byte d.pressed_keys 1 ≡ 2 ^ j
    → (has (2 ^ j - 2 ^ i) (2 ^ i) ≡ true)
      × (has (2 ^ j - 2 ^ i) (2 ^ j) ≡ false)
      × ((handle_modifier_keys interval d).0.new_macro
          ≡ d.new_macro
            ++ timed event_key_press interval (codes_where (has (2 ^ j - 2 ^ i)) modifier_keys))
unfolding swapped
handle_modifier_keys_swap interval i j d c lt le p q =
    let ok = swapped_lem i j (omega arith) le in
    let up : has (2 ^ j - 2 ^ i) (2 ^ i) ≡ true = ground (arith, ok) in
    let down : has (2 ^ j - 2 ^ i) (2 ^ j) ≡ false = ground (arith, ok) in
    let e : event_of d ≡ event_key_press = ground (arith, ok) in
    let f : diff_of d ≡ 2 ^ j - 2 ^ i = ground (arith, ok) in
    (
      up,
      down,
      handle_modifier_keys-macro interval d c
          ∙ timed_cong d.new_macro interval (event_of d) event_key_press _ _ e
              (ap (λ (x : ℕ). codes_where (has x) modifier_keys) f),
    )
