-- ===== src/Banks.antt =====
-- src/lib/shared/GKeysBanksCapability.cpp and .hpp, and src/include/MBank.hpp: the banks M0 to M3 of
-- a device, each a map of G-keys to events. A command is its list of characters. `none` is an
-- exception that reaches the caller; an exception that the code itself catches is written out.
pub mod Full
use glogi_k.Prelude.{
  ℕ, Bool, true, false, not, ◌&&◌, List, [], ◌∷◌, Option, none, some, leb, ◌==◌, if◌then◌else◌, Map,
  find, contains, insert, assign, keep_keys, map_values,
}
use glogi_k.Types.{Macro, mkey_m0, mkeyid_max, gkeyid_inv, gkeyid_max}

pub data GKeyEventType : Type 0 where
  gkey_inactive gkey_macro gkey_runcmd gkey_invalid : GKeyEventType

pub record GKeysEvent : Type 0 where
  pub macro : Macro
  pub command : List ℕ
  pub event_type : GKeyEventType

abbrev pub MBank : Type 0
MBank = Map GKeysEvent

abbrev pub BanksMap : Type 0
BanksMap = Map MBank

-- A GKeysBanksCapability.
pub record Banks : Type 0 where
  pub gkeys_banks : BanksMap
  pub current_bank_id : ℕ

unfoldable pub is_empty {ℓ} : {A : Type ℓ} → List A → Bool
is_empty [] = true
is_empty (x ∷ xs) = false

-- The constructor from a macro.
unfoldable pub gkeys_event : Macro → GKeysEvent
gkeys_event macro = record {
  macro = macro;
  command = [];
  event_type = if is_empty macro then gkey_inactive else gkey_macro;
}

unfoldable pub clear_event_macro : GKeysEvent → GKeysEvent
clear_event_macro event = record event { macro = [] }

unfoldable pub set_command : List ℕ → GKeysEvent → GKeysEvent
set_command command event = record event { command = command }

-- The inner loop of `initBanks`.
unfoldable pub insert_keys : List ℕ → MBank → MBank
insert_keys [] bank = bank
insert_keys (key ∷ keys) bank = insert_keys keys (insert key (gkeys_event []) bank)

-- One bank; a bank that is there already is skipped with an error.
unfoldable pub init_bank : List ℕ → ℕ → BanksMap → BanksMap
init_bank keys id banks = if contains id banks then banks else insert id (insert_keys keys []) banks

unfoldable pub init_all : List ℕ → List ℕ → BanksMap → BanksMap
init_all keys [] banks = banks
init_all keys (id ∷ ids) banks = init_all keys ids (init_bank keys id banks)

unfoldable pub init_banks : List ℕ → List ℕ → BanksMap → BanksMap
init_banks [] keys banks = banks
init_banks (id ∷ ids) keys banks = init_all keys (mkey_m0 ∷ id ∷ ids) banks

-- `getBankID`, which throws on a number out of the enum.
unfoldable pub is_bank_id : ℕ → Bool
is_bank_id num = leb num mkeyid_max

unfoldable pub is_gkey_id : ℕ → Bool
is_gkey_id id = not (id == gkeyid_inv) && leb id gkeyid_max

unfoldable pub check_banks_keys : BanksMap → BanksMap
check_banks_keys banks = map_values (keep_keys is_gkey_id) (keep_keys is_bank_id banks)

unfoldable pub reset_event : GKeysEvent → GKeysEvent
reset_event event = record (clear_event_macro event) { event_type = gkey_inactive }

unfoldable pub reset_bank : ℕ → BanksMap → Option BanksMap
reset_bank bank_id banks = elim (find bank_id banks) [
  | none ↦ none
  | some bank ↦ some (assign bank_id (map_values reset_event bank) banks)
]

-- GKeysBanks.at(bankID).at(keyID)
unfoldable pub find_event : BanksMap → ℕ → ℕ → Option GKeysEvent
find_event banks bank_id key_id = elim (find bank_id banks) [
  | none ↦ none
  | some bank ↦ find key_id bank
]

-- Assignment to that event.
unfoldable pub assign_event : BanksMap → ℕ → ℕ → GKeysEvent → BanksMap
assign_event banks bank_id key_id event = elim (find bank_id banks) [
  | none ↦ banks
  | some bank ↦ assign bank_id (assign key_id event bank) banks
]
