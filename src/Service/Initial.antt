-- ===== src/Service/Initial.antt =====
-- The banks that the service makes for a Logitech G510 from the identifiers that the driver gives.
use glogi_k.Prelude.{ℕ, ◌≤◌, true, ap, ◌∙◌, List, [], ◌∷◌, some, ◌≡◌, refl, arith}
use glogi_k.Types.{mkey_m0, mkeyid_max}
use glogi_k.LogitechG510.{get_mkeys_id_array, get_gkeys_id_array}
use glogi_k.Keys.{get_mkey_id, get_gkey_id}
use glogi_k.Banks.{Banks, gkeys_event, init_banks, find_event}
use glogi_k.Banks.Full.{listed, init_banks-find_event}
use glogi_k.KeyboardDriver.Listen.Total.{IsGKey}
use glogi_k.Service.Accepts.{Full}

abbrev pub initial_banks : Banks
initial_banks = record {
  gkeys_banks = init_banks get_mkeys_id_array get_gkeys_id_array [];
  current_bank_id = mkey_m0;
}

abbrev gkeys : List ℕ
gkeys = 1 ∷ 2 ∷ 3 ∷ 4 ∷ 5 ∷ 6 ∷ 7 ∷ 8 ∷ 9 ∷ 10 ∷ 11 ∷ 12 ∷ 13 ∷ 14 ∷ 15 ∷ 16 ∷ 17 ∷ 18 ∷ []

pub mkeys_named : get_mkeys_id_array ≡ 1 ∷ 2 ∷ 3 ∷ []
unfolding get_mkeys_id_array get_mkey_id
mkeys_named = refl

gkeys_named : get_gkeys_id_array ≡ gkeys
unfolding get_gkeys_id_array get_gkey_id
gkeys_named = refl

all_listed :
    (b k : ℕ)
    → b ≤ mkeyid_max
    → IsGKey k
    → (listed b (mkey_m0 ∷ 1 ∷ 2 ∷ 3 ∷ []) ≡ true) × (listed k gkeys ≡ true)
unfolding listed
all_listed b k le known = (ground arith, ground arith)

all_found :
    (b k : ℕ)
    → b ≤ mkeyid_max
    → IsGKey k
    → find_event initial_banks.gkeys_banks b k ≡ some (gkeys_event [])
all_found b k le known =
    let (mkeys, keys) = all_listed b k le known in
    ap (λ (ids : List ℕ). find_event (init_banks ids get_gkeys_id_array []) b k) mkeys_named
    ∙ ap (λ (ids : List ℕ). find_event (init_banks (1 ∷ 2 ∷ 3 ∷ []) ids []) b k) gkeys_named
    ∙ init_banks-find_event 1 (2 ∷ 3 ∷ []) gkeys b k
    ∙ ground (arith, mkeys, keys)

-- `initBanks` on the identifiers of the G510's M-keys and G-keys gives every bank from M0 to M3 an
-- event for every G-key from G1 to G18.
pub init_banks-Full : Full initial_banks
init_banks-Full = record {
  has_event = λ b k le known. (gkeys_event [], all_found b k le known);
  current = omega arith;
}
