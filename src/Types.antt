-- ===== src/Types.antt =====
-- src/include/base.hpp: key events, macros, the identifiers of M-keys and G-keys, the size limits.
-- An identifier is the uint8_t behind its enum: the checks on stored banks are about values out of
-- the enum.
use glogi_k.Prelude.{ℕ, Bool, true, false, List}

pub data EventValue : Type 0 where
  event_key_release event_key_press event_key_unknown : EventValue

pub record KeyEvent : Type 0 where
  pub code : ℕ
  pub event : EventValue
  pub interval : ℕ

abbrev pub Macro : Type 0
Macro = List KeyEvent

-- MACRO_T_KEYPRESS_MAX_SIZE and MACRO_T_MAX_SIZE
abbrev pub macro_keypress_max_size : ℕ
macro_keypress_max_size = 16

abbrev pub macro_max_size : ℕ
macro_max_size = 24

abbrev pub mkey_m0 : ℕ
mkey_m0 = 0

abbrev pub mkeyid_max : ℕ
mkeyid_max = 3

abbrev pub gkeyid_inv : ℕ
gkeyid_inv = 0

abbrev pub gkeyid_max : ℕ
gkeyid_max = 18

abbrev pub is_press : EventValue → Bool
is_press event_key_press = true
is_press event_key_release = false
is_press event_key_unknown = false

abbrev pub is_release : EventValue → Bool
is_release event_key_release = true
is_release event_key_press = false
is_release event_key_unknown = false
