-- ===== src/ClientsManager/Register.antt =====
-- Registration: who is connected after it, and a second attempt after a refusal.
use glogi_k.Prelude.{
  ℕ, Bool, true, false, not, ◌&&◌, ◌||◌, List, [], ◌∷◌, ◌≡◌, refl, arith, ◌==◌, if◌then◌else◌, Map,
  find, contains, is_some, find-erase, ap, ◌∙◌, sym, none, some, ◌≢◌, Unique, Bool-cases, inl, inr,
}
use glogi_k.Banks.Full.{listed}
use glogi_k.ClientsManager.{
  Client, ClientsManager, Done, Reply, registered, already_registered, report_yourself, put_clients,
  count_clients, decrease_active, refuse, unregister_client, unregister_all, path_is_taken,
  lost_clients, has_listeners, uncheck_all, add_client, register_client,
}

pub unregister_client-contains :
    (id j : ℕ) (m : ClientsManager)
    → contains j (unregister_client id m).state.connected_clients
      ≡ (contains j m.connected_clients && not (id == j))
unfolding unregister_client refuse put_clients count_clients decrease_active is_some
unregister_client-contains id j m = ground (arith, find-erase j id m.connected_clients)

unregister_all-contains :
    (ids : List ℕ) (j : ℕ) (m : ClientsManager)
    → contains j (unregister_all ids m).0.connected_clients
      ≡ (contains j m.connected_clients && not (listed j ids))
unfolding unregister_all listed
unregister_all-contains [] j m = ground arith
unregister_all-contains (id ∷ ids) j m = ground (
  arith,
  unregister_all-contains ids j (unregister_client id m).state,
  unregister_client-contains id j m,
)

add_client-contains :
    (path id j : ℕ) (m : ClientsManager)
    → contains id m.connected_clients ≡ false
    → ((add_client path id m).1 ≡ registered id)
      × (contains j (add_client path id m).0.connected_clients
          ≡ (id == j || contains j m.connected_clients))
unfolding add_client put_clients count_clients find is_some
add_client-contains path id j m h = (ground arith, ground arith)

register_client-listed :
    (path id j : ℕ) (m : ClientsManager)
    → path_is_taken path m.connected_clients ≡ false
    → contains id m.connected_clients ≡ false
    → ((register_client path id m).result ≡ registered id)
      × (contains j (register_client path id m).state.connected_clients ≡ (
          id == j
          || (contains j m.connected_clients && not (listed j (lost_clients m.connected_clients)))))
unfolding register_client
register_client-listed path id j m free fresh =
    let lost = lost_clients m.connected_clients in
    let m₁ = (unregister_all lost m).0 in
    let unused : contains id m₁.connected_clients ≡ false =
      ground (arith, unregister_all-contains lost id m) in
    let (ok, there) = add_client-contains path id j m₁ unused in
    rw (free, if◌then◌else◌)
      (ok, there ∙ ap (λ (b : Bool). id == j || b) (unregister_all-contains lost j m))

-- Whether the client is connected and alive.
unfoldable pub is_alive : ℕ → Map Client → Bool
is_alive j clients = elim (find j clients) [ none ↦ false | some client ↦ client.check ]

-- No client that is alive has the session path.
abbrev pub IsFree : ℕ → Map Client → Type 0
IsFree path clients =
    (j : ℕ) (client : Client)
    → find j clients ≡ some client
    → client.check ≡ true
    → client.session_object_path ≢ path

listed-lost_clients :
    (j : ℕ) (m : Map Client) → contains j m ≡ false → listed j (lost_clients m) ≡ false
unfolding lost_clients listed find is_some
listed-lost_clients j [] h = refl
listed-lost_clients j ((k, c) ∷ m) h = ground (arith, h, listed-lost_clients j m)

-- In a map with no key twice, what is left of the clients are those that are alive.
lost_clients-is_alive :
    (j : ℕ) (m : Map Client)
    → Unique m
    → (contains j m && not (listed j (lost_clients m))) ≡ is_alive j m
unfolding lost_clients listed find is_some is_alive
lost_clients-is_alive j [] u = refl
lost_clients-is_alive j ((k, c) ∷ m) u = elim (Bool-cases (k == j)) [
  | inl e ↦
      let same : k ≡ j = ground (arith, e) in
      let gone = listed-lost_clients j m (ap (λ i. contains i m) (sym same) ∙ u.0) in
      ground (arith, e, gone)
  | inr e ↦ ground (arith, e, lost_clients-is_alive j m u.1)
]

path_is_taken-IsFree :
    (path : ℕ) (m : Map Client) → Unique m → IsFree path m → path_is_taken path m ≡ false
unfolding path_is_taken find is_some
path_is_taken-IsFree path [] u f = refl
path_is_taken-IsFree path ((k, c) ∷ m) u f =
    let here : k == k ≡ true = ground arith in
    let f' : IsFree path m = λ j client e a. elim (Bool-cases (k == j)) [
      | inl q ↦
          let same : k ≡ j = ground (arith, q) in
          let none_there = ap (λ i. contains i m) (sym same) ∙ u.0 in
          absurd (ground (arith, none_there, e))
      | inr q ↦ f j client (ground (arith, q, e)) a
    ] in
    let rest = path_is_taken-IsFree path m u.1 f' in
    elim (Bool-cases c.check) [
      | inr dead ↦ ground (arith, dead, rest)
      | inl alive ↦
          let other : c.session_object_path ≢ path = f k c (ground (arith, here)) alive in
          ground (arith, alive, other, rest)
    ]

-- No client is connected twice, no client that is alive has the session path, and the name is new:
-- the client is registered, and the connected clients are then it and those of before that are alive,
-- that is, whose check is set.
pub register_client-contains :
    (path id j : ℕ) (m : ClientsManager)
    → Unique m.connected_clients
    → IsFree path m.connected_clients
    → contains id m.connected_clients ≡ false
    → ((register_client path id m).result ≡ registered id)
      × (contains j (register_client path id m).state.connected_clients
          ≡ (id == j || is_alive j m.connected_clients))
register_client-contains path id j m u f fresh =
    let free = path_is_taken-IsFree path m.connected_clients u f in
    let (ok, there) = register_client-listed path id j m free fresh in
    (ok, there ∙ ap (λ (b : Bool). id == j || b) (lost_clients-is_alive j m.connected_clients u))

lost_clients-uncheck_all :
    (j : ℕ) (m : Map Client)
    → (contains j m && not (listed j (lost_clients (uncheck_all m)))) ≡ false
unfolding lost_clients uncheck_all listed find is_some
lost_clients-uncheck_all j [] = refl
lost_clients-uncheck_all j ((k, c) ∷ m) = ground (arith, lost_clients-uncheck_all j m)

path_is_taken-uncheck_all : (path : ℕ) (m : Map Client) → path_is_taken path (uncheck_all m) ≡ false
unfolding path_is_taken uncheck_all
path_is_taken-uncheck_all path [] = refl
path_is_taken-uncheck_all path ((k, c) ∷ m) = path_is_taken-uncheck_all path m

contains-uncheck_all : (k : ℕ) (m : Map Client) → contains k (uncheck_all m) ≡ contains k m
unfolding uncheck_all find is_some
contains-uncheck_all k [] = refl
contains-uncheck_all k ((j, c) ∷ m) = ground (arith, contains-uncheck_all k m)

only_new :
    (b : Bool) (j : ℕ) (m : ClientsManager)
    → (b
        || (contains j (uncheck_all m.connected_clients)
            && not (listed j (lost_clients (uncheck_all m.connected_clients)))))
      ≡ b
only_new b j m = ground (
  arith,
  lost_clients-uncheck_all j m.connected_clients,
  contains-uncheck_all j m.connected_clients,
)

register_client-taken :
    (path id : ℕ) (m : ClientsManager)
    → path_is_taken path m.connected_clients ≡ true
    → register_client path id m ≡ record {
      state = put_clients (uncheck_all m.connected_clients) m;
      effects = if has_listeners m then report_yourself ∷ [] else [];
      result = already_registered;
    }
unfolding register_client
register_client-taken path id m taken = rw (taken, if◌then◌else◌) refl

-- A client that is told that it is already registered, and tries again under a new name before any
-- client reports, is registered: it is then the only connected client.
pub register_client_again :
    (path id id' j : ℕ) (m : ClientsManager)
    → path_is_taken path m.connected_clients ≡ true
    → contains id' m.connected_clients ≡ false
    → let first = register_client path id m in
      let second = register_client path id' first.state in
      (first.result ≡ already_registered)
      × (second.result ≡ registered id')
      × (contains j second.state.connected_clients ≡ (id' == j))
unfolding put_clients
register_client_again path id id' j m taken fresh =
    let m₁ = put_clients (uncheck_all m.connected_clients) m in
    let first = register_client-taken path id m taken in
    let (ok, there) =
      register_client-listed path id' j m₁ (path_is_taken-uncheck_all path m.connected_clients)
        (contains-uncheck_all id' m.connected_clients ∙ fresh) in
    (
      ap (λ (d : Done Reply). d.result) first,
      ap (λ (d : Done Reply). (register_client path id' d.state).result) first ∙ ok,
      ap (λ (d : Done Reply). contains j (register_client path id' d.state).state.connected_clients)
            first
          ∙ there
          ∙ only_new (id' == j) j m,
    )
