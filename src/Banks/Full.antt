-- ===== src/Banks/Full.antt =====
-- Which events the banks have: after `initBanks`, after `checkBanksKeys` and after `resetBank`.
use glogi_k.Prelude.{
  ℕ, Bool, false, ◌&&◌, ◌||◌, List, [], ◌∷◌, Option, none, some, ◌≡◌, ◌⊎◌, arith, ◌==◌, leb,
  if◌then◌else◌, find, contains, insert, assign, keep_keys, map_values, is_some, find-insert,
  find-assign, find-keep_keys, find-map_values, Option-cases, inl, inr, ◌∙◌, ap,
}
use mathlib.Core.Option
use glogi_k.Types.{mkey_m0}
use glogi_k.Banks.{
  MBank, BanksMap, gkeys_event, insert_keys, init_bank, init_all, init_banks, is_bank_id,
  is_gkey_id, check_banks_keys, reset_event, reset_bank, find_event,
}

unfoldable pub listed : ℕ → List ℕ → Bool
listed k [] = false
listed k (j ∷ js) = j == k || listed k js

find-insert_keys :
    (k : ℕ) (keys : List ℕ) (bank : MBank)
    → find k (insert_keys keys bank) ≡ (
        if contains k bank
        then find k bank
        else if listed k keys
        then some (gkeys_event [])
        else none)
unfolding insert_keys listed is_some
find-insert_keys k [] bank = ground arith
find-insert_keys k (j ∷ js) bank = ground (
  arith,
  find-insert_keys k js (insert j (gkeys_event []) bank),
  find-insert k j (gkeys_event []) bank,
)

find-init_bank :
    (b id : ℕ) (keys : List ℕ) (banks : BanksMap)
    → find b (init_bank keys id banks) ≡ (
        if contains b banks
        then find b banks
        else if id == b
        then some (insert_keys keys [])
        else none)
unfolding init_bank is_some
find-init_bank b id keys banks = ground (arith, find-insert b id (insert_keys keys []) banks)

find-init_all :
    (b : ℕ) (keys ids : List ℕ) (banks : BanksMap)
    → find b (init_all keys ids banks) ≡ (
        if contains b banks
        then find b banks
        else if listed b ids
        then some (insert_keys keys [])
        else none)
unfolding init_all listed is_some
find-init_all b keys [] banks = ground arith
find-init_all b keys (id ∷ ids) banks =
    ground
      (arith, find-init_all b keys ids (init_bank keys id banks), find-init_bank b id keys banks)

-- From no banks, `initBanks` with at least one M-key gives the bank M0 and one bank per M-key, each
-- with an inactive event for every G-key that is listed and no other.
pub init_banks-find_event :
    (m : ℕ) (mkeys gkeys : List ℕ) (b k : ℕ)
    → find_event (init_banks (m ∷ mkeys) gkeys []) b k
      ≡ (if listed b (mkey_m0 ∷ m ∷ mkeys) && listed k gkeys then some (gkeys_event []) else none)
unfolding init_banks find_event find is_some
init_banks-find_event m mkeys gkeys b k =
    ground (arith, find-init_all b gkeys (mkey_m0 ∷ m ∷ mkeys) [], find-insert_keys k gkeys [])

pub check_banks_keys-kept :
    (banks : BanksMap) (b k : ℕ)
    → find_event (check_banks_keys banks) b k
      ≡ (if is_bank_id b && is_gkey_id k then find_event banks b k else none)
unfolding check_banks_keys find_event
check_banks_keys-kept banks b k =
    let kept =
      ap (λ (o : Option MBank). Option.map (keep_keys is_gkey_id) o)
        (find-keep_keys b is_bank_id banks) in
    let found = find-map_values b (keep_keys is_gkey_id) (keep_keys is_bank_id banks) ∙ kept in
    elim (Option-cases (find b banks)) [
      | inl e ↦ ground (arith, found)
      | inr (bank, e) ↦ ground (arith, found, find-keep_keys k is_gkey_id bank)
    ]

-- `checkBanksKeys` keeps every event of the banks M0 to M3 on the keys G1 to G18, unchanged, and drops
-- every other one, as that on G0, the key that stands for none.
pub check_banks_keys-find_event :
    (banks : BanksMap) (b k : ℕ)
    → find_event (check_banks_keys banks) b k
      ≡ (if leb b 3 && (leb 1 k && leb k 18) then find_event banks b k else none)
unfolding is_bank_id is_gkey_id
check_banks_keys-find_event banks b k = ground (arith, check_banks_keys-kept banks b k)

-- `resetBank` throws on a bank that is not there. Otherwise every event of the bank loses its macro
-- and is inactive, its command is kept, and the other banks are as before.
reset_bank-find_event :
    (id : ℕ) (banks : BanksMap) (b k : ℕ)
    → (contains id banks ≡ false) × (reset_bank id banks ≡ none)
      ⊎ (banks' : BanksMap) × (reset_bank id banks ≡ some banks')
        × (find_event banks' b k ≡ (
            if id == b
            then Option.map reset_event (find_event banks b k)
            else find_event banks b k))
unfolding reset_bank find_event is_some
reset_bank-find_event id banks b k = elim (Option-cases (find id banks)) [
  | inl e ↦ inl (ground arith, ground arith)
  | inr (bank, e) ↦ inr (
    assign id (map_values reset_event bank) banks,
    ground arith,
    ground (
      arith,
      find-assign b id (map_values reset_event bank) banks,
      find-map_values k reset_event bank,
    ),
  )
]
