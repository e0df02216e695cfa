-- ===== src/ClientsManager/Counted.antt =====
-- The number of active users is the number of connected clients whose session is active.
use glogi_k.Prelude.{
  ℕ, ◌+◌, ◌%◌, ◌^◌, Bool, true, false, [], ◌∷◌, Option, none, some, ◌≡◌, refl, ap, ◌∙◌, arith, ◌==◌,
  if◌then◌else◌, Map, find, contains, assign, erase, is_some, Unique, Bool-cases, inl, inr,
}
use glogi_k.ClientsManager.{Client, ClientsManager, is_active, uncheck_all}

unfoldable pub one_if : Bool → ℕ
one_if b = if b then 1 else 0

-- How many clients are active.
unfoldable pub count_active : Map Client → ℕ
count_active [] = 0
count_active ((id, client) ∷ rest) = one_if (is_active client.session_state) + count_active rest

-- No client twice, and the count is right, modulo 2^32 as the source counts.
pub record Counted (m : ClientsManager) : Type 0 where
  pub unique : Unique m.connected_clients
  pub count : m.num_active ≡ count_active m.connected_clients % 2 ^ 32

-- The first entry is the one that is found.
found_first :
    (b : Bool) (c client : Client) (o : Option Client)
    → b ≡ true
    → (if b then some c else o) ≡ some client
    → is_active c.session_state ≡ is_active client.session_state
found_first b c client o e h =
    let same : some c ≡ some client = ground arith in
    ap (λ (x : Option Client). elim x [ none ↦ false | some y ↦ is_active y.session_state ]) same

count_active-absent :
    (id : ℕ) (m : Map Client) → contains id m ≡ false → count_active (erase id m) ≡ count_active m
unfolding count_active erase find is_some
count_active-absent id [] h = refl
count_active-absent id ((k, c) ∷ m) h = ground (arith, count_active-absent id m)

pub count_active-erase :
    (id : ℕ) (client : Client) (m : Map Client)
    → find id m ≡ some client
    → Unique m
    → count_active (erase id m) + one_if (is_active client.session_state) ≡ count_active m
unfolding count_active erase find is_some
count_active-erase id client [] h u = absurd (ground arith)
count_active-erase id client ((k, c) ∷ m) h u = elim (Bool-cases (k == id)) [
  | inl e ↦
      let same = found_first (k == id) c client (find id m) e h in
      let absent : contains id m ≡ false = ground arith in
      ground (arith, same, count_active-absent id m absent)
  | inr e ↦ ground (arith, count_active-erase id client m)
]

pub count_active-assign :
    (id : ℕ) (old client : Client) (m : Map Client)
    → find id m ≡ some old
    → count_active (assign id client m) + one_if (is_active old.session_state)
      ≡ count_active m + one_if (is_active client.session_state)
unfolding count_active assign find
count_active-assign id old client [] h = absurd (ground arith)
count_active-assign id old client ((k, c) ∷ m) h = elim (Bool-cases (k == id)) [
  | inl e ↦ ground (arith, found_first (k == id) c old (find id m) e h)
  | inr e ↦ ground (arith, count_active-assign id old client m)
]

pub count_active-uncheck_all : (m : Map Client) → count_active (uncheck_all m) ≡ count_active m
unfolding count_active uncheck_all
count_active-uncheck_all [] = refl
count_active-uncheck_all ((k, c) ∷ m) = omega (arith, count_active-uncheck_all m)

contains-uncheck_all : (k : ℕ) (m : Map Client) → contains k (uncheck_all m) ≡ contains k m
unfolding uncheck_all find is_some
contains-uncheck_all k [] = refl
contains-uncheck_all k ((j, c) ∷ m) = ground (arith, contains-uncheck_all k m)

pub uncheck_all-Unique : (m : Map Client) → Unique m → Unique (uncheck_all m)
unfolding uncheck_all
uncheck_all-Unique [] h = tt
uncheck_all-Unique ((k, c) ∷ m) h = (contains-uncheck_all k m ∙ h.0, uncheck_all-Unique m h.1)
