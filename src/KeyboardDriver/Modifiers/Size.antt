-- ===== src/KeyboardDriver/Modifiers/Size.antt =====
-- `handleModifierKeys` keeps the macro within its limits, and its warning is never logged.
use glogi_k.Prelude.{
  ℕ, ◌-◌, ◌≤◌, ◌<◌, Bool, true, false, List, [], ◌∷◌, ◌++◌, ◌≡◌, refl, arith, ltb, ◌==◌,
  if◌then◌else◌, length, length-append, count_if, count_if-append, count_if-le-length, ◌⊎◌,
  Bool-cases, inl, inr, every_below, every_below_lem,
}
use glogi_k.Prelude.Bits.{has}
use glogi_k.Types.{
  EventValue, KeyEvent, Macro, event_key_press, event_key_release, macro_keypress_max_size,
  macro_max_size,
}
use glogi_k.Macro.Counts.{pressed_event}
use glogi_k.UsbDevice.{Device}
use glogi_k.LogitechG510.{byte}
use glogi_k.KeyboardDriver.Modifiers.{
  ModifierKey, modifier_keys, Loop, skip_event, append_modifier, modifier_round, modifier_loop,
  handle_modifier_keys,
}

-- A macro under record: MACRO_T_MAX_SIZE events at most, MACRO_T_KEYPRESS_MAX_SIZE of them press
-- events.
pub record WithinLimits (m : Macro) : Type 0 where
  pub events : length m ≤ macro_max_size
  pub presses : count_if pressed_event m ≤ macro_keypress_max_size

pub WithinLimits-append :
    (m : Macro) (e : KeyEvent)
    → WithinLimits m
    → length m < macro_max_size
    → (length m < macro_keypress_max_size) ⊎ (pressed_event e ≡ false)
    → WithinLimits (m ++ e ∷ [])
WithinLimits-append m e h room press = record {
  events = omega (arith, length-append m (e ∷ []));
  presses =
      ground (arith, count_if-append pressed_event m (e ∷ []), count_if-le-length pressed_event m);
}

append_modifier-WithinLimits :
    (event : EventValue) (k : ModifierKey) (s : Loop)
    → WithinLimits s.macro
    → WithinLimits (append_modifier event k s).macro
unfolding append_modifier skip_event
append_modifier-WithinLimits event k s h = ground (
  arith,
  WithinLimits-append s.macro
      (record { code = k.code; event = event; interval = if ltb 0 s.ret then 1 else s.interval }) h,
)

modifier_round-WithinLimits :
    (event : EventValue) (k : ModifierKey) (s : Loop)
    → WithinLimits s.macro
    → WithinLimits (modifier_round event k s).macro
unfolding modifier_round
modifier_round-WithinLimits event k s h =
    ground (arith, append_modifier-WithinLimits event k (record s { diff = s.diff - k.key }) h)

modifier_loop-WithinLimits :
    (event : EventValue) (ks : List ModifierKey) (s : Loop)
    → WithinLimits s.macro
    → WithinLimits (modifier_loop event ks s).0.macro
unfolding modifier_loop
modifier_loop-WithinLimits event [] s h = h
modifier_loop-WithinLimits event (k ∷ ks) s h =
    let kept = modifier_round-WithinLimits event k s h in
    let rest = modifier_loop-WithinLimits event ks (modifier_round event k s) kept in
    elim (Bool-cases ((modifier_round event k s).diff == 0)) [
      | inl e ↦ rw (e, if◌then◌else◌) kept
      | inr e ↦ rw (e, if◌then◌else◌) rest
    ]

-- What the function makes of the two bytes: the event, and the variables before the loop.
abbrev pub event_of : Device → EventValue
event_of d =
    if ltb (byte d.pressed_keys 1) (byte d.previous_pressed_keys 1)
    then event_key_release
    else event_key_press

abbrev pub diff_of : Device → ℕ
diff_of d =
    let before = byte d.previous_pressed_keys 1 in
    let now = byte d.pressed_keys 1 in if ltb now before then before - now else now - before

abbrev pub start : ℕ → Device → Loop
start interval d = record { macro = d.new_macro; interval = interval; diff = diff_of d; ret = 0 }

-- Whatever the two modifier bytes, `handleModifierKeys` keeps a macro of at most MACRO_T_MAX_SIZE
-- events with at most MACRO_T_KEYPRESS_MAX_SIZE press events within these limits.
pub handle_modifier_keys-WithinLimits :
    (interval : ℕ) (d : Device)
    → WithinLimits d.new_macro
    → WithinLimits (handle_modifier_keys interval d).0.new_macro
unfolding handle_modifier_keys
handle_modifier_keys-WithinLimits interval d h =
    ground (arith, modifier_loop-WithinLimits (event_of d) modifier_keys (start interval d) h)

-- What the loop does to `diff` alone.
reaches_zero : List ModifierKey → ℕ → Bool
reaches_zero [] d = false
reaches_zero (k ∷ ks) d =
    let d' = if has d k.key then d - k.key else d in
    let rest = reaches_zero ks d' in if d' == 0 then true else rest

pub modifier_round-diff :
    (event : EventValue) (k : ModifierKey) (s : Loop)
    → (modifier_round event k s).diff ≡ (if has s.diff k.key then s.diff - k.key else s.diff)
unfolding modifier_round append_modifier skip_event
modifier_round-diff event k s = ground arith

modifier_loop-reaches_zero :
    (event : EventValue) (ks : List ModifierKey) (s : Loop)
    → (modifier_loop event ks s).1 ≡ reaches_zero ks s.diff
unfolding modifier_loop reaches_zero
modifier_loop-reaches_zero event [] s = refl
modifier_loop-reaches_zero event (k ∷ ks) s = ground (
  arith,
  modifier_round-diff event k s,
  modifier_loop-reaches_zero event ks (modifier_round event k s),
)

every_diff : every_below 256 (λ d. reaches_zero modifier_keys d) ≡ true
unfolding every_below reaches_zero
every_diff = refl

-- Whatever the two modifier bytes, the loop takes the difference down to zero: the warning behind
-- it is never logged.
handle_modifier_keys_returns :
    (interval : ℕ) (d : Device)
    → byte d.previous_pressed_keys 1 < 256
    → byte d.pressed_keys 1 < 256
    → (handle_modifier_keys interval d).2 ≡ true
unfolding handle_modifier_keys
handle_modifier_keys_returns interval d hp hn = ground (
  arith,
  modifier_loop-reaches_zero (event_of d) modifier_keys (start interval d),
  every_below_lem 256 (λ (x : ℕ). reaches_zero modifier_keys x) (diff_of d) every_diff,
)
