-- ===== src/KeyEvents/Commands.antt =====
-- The command line of a spawned process: its items, joined by spaces, are the command.
use glogi_k.Prelude.{
  ℕ, Bool, false, List, [], ◌∷◌, ◌++◌, Option, some, ◌≡◌, ◌≢◌, refl, arith, ◌==◌, if◌then◌else◌,
  All, Bool-cases, inl, inr, ap, ◌∙◌,
}
use glogi_k.KeyEvents.{spawn, put_char, getlines, first_item, other_items, spawn_process}

-- The items with a space between two of them.
unfoldable pub join : List (List ℕ) → List ℕ
join [] = []
join (x ∷ []) = x
join (x ∷ y ∷ ys) = x ++ 32 ∷ join (y ∷ ys)

-- The last character is no space.
unfoldable pub ends_in_space : List ℕ → Bool
ends_in_space [] = false
ends_in_space (c ∷ []) = c == 32
ends_in_space (c ∷ d ∷ ds) = ends_in_space (d ∷ ds)

abbrev pub HasNoSpace : List ℕ → Type 0
HasNoSpace item = All (λ c. c ≢ 32) item

put_char-join : (c : ℕ) (items : List (List ℕ)) → join (put_char c items) ≡ c ∷ join items
unfolding put_char join
put_char-join c [] = refl
put_char-join c (x ∷ []) = refl
put_char-join c (x ∷ y ∷ ys) = refl

put_char-HasNoSpace :
    (c : ℕ) (items : List (List ℕ))
    → c ≢ 32
    → All HasNoSpace items
    → All HasNoSpace (put_char c items)
unfolding put_char
put_char-HasNoSpace c [] n h = ((n, tt), tt)
put_char-HasNoSpace c (x ∷ xs) n h = ((n, h.0), h.1)

put_char-some :
    (c : ℕ) (items : List (List ℕ))
    → (x : List ℕ) × (xs : List (List ℕ)) × (put_char c items ≡ x ∷ xs)
unfolding put_char
put_char-some c [] = (c ∷ [], [], refl)
put_char-some c (x ∷ xs) = (c ∷ x, xs, refl)

join_after_space :
    (items : List (List ℕ)) (x : List ℕ) (xs : List (List ℕ))
    → items ≡ x ∷ xs
    → join ([] ∷ items) ≡ 32 ∷ join items
unfolding join
join_after_space [] x xs e = absurd (ground arith)
join_after_space (y ∷ ys) x xs e = refl

getlines-HasNoSpace : (cs : List ℕ) → All HasNoSpace (getlines cs)
unfolding getlines
getlines-HasNoSpace [] = tt
getlines-HasNoSpace (c ∷ cs) = elim (Bool-cases (c == 32)) [
  | inl e ↦ rw (e, if◌then◌else◌) (tt, getlines-HasNoSpace cs)
  | inr e ↦
      rw (e, if◌then◌else◌)
        (put_char-HasNoSpace c (getlines cs) (ground arith) (getlines-HasNoSpace cs))
]

getlines-some :
    (c : ℕ) (cs : List ℕ) → (x : List ℕ) × (xs : List (List ℕ)) × (getlines (c ∷ cs) ≡ x ∷ xs)
unfolding getlines
getlines-some c cs = elim (Bool-cases (c == 32)) [
  | inl e ↦ ([], getlines cs, rw (e, if◌then◌else◌) refl)
  | inr e ↦ let (x, xs, p) = put_char-some c (getlines cs) in (x, xs, rw (e, if◌then◌else◌) p)
]

getlines-step :
    (c : ℕ) (cs : List ℕ)
    → getlines (c ∷ cs) ≡ (if c == 32 then [] ∷ getlines cs else put_char c (getlines cs))
unfolding getlines
getlines-step c cs = refl

join-step :
    (c : ℕ) (items : List (List ℕ)) (x : List ℕ) (xs : List (List ℕ))
    → items ≡ x ∷ xs
    → join (if c == 32 then [] ∷ items else put_char c items) ≡ c ∷ join items
join-step c items x xs e = ground (arith, put_char-join c items, join_after_space items x xs e)

no_items : join (getlines []) ≡ []
unfolding getlines join
no_items = refl

last_item : (c : ℕ) → (c == 32) ≡ false → join (getlines (c ∷ [])) ≡ c ∷ []
unfolding getlines join put_char
last_item c h = ground arith

getlines-join : (cs : List ℕ) → ends_in_space cs ≡ false → join (getlines cs) ≡ cs
unfolding ends_in_space
getlines-join [] h = no_items
getlines-join (c ∷ []) h = last_item c h
getlines-join (c ∷ d ∷ ds) h =
    let (x, xs, e) = getlines-some d ds in
    ap join (getlines-step c (d ∷ ds))
    ∙ join-step c (getlines (d ∷ ds)) x xs e
    ∙ ap (λ (l : List ℕ). c ∷ l) (getlines-join (d ∷ ds) h)

items-join : (items : List (List ℕ)) → join (first_item items ∷ other_items items) ≡ join items
unfolding first_item other_items join
items-join [] = refl
items-join (x ∷ xs) = refl

items-HasNoSpace :
    (items : List (List ℕ))
    → All HasNoSpace items
    → All HasNoSpace (first_item items ∷ other_items items)
unfolding first_item other_items
items-HasNoSpace [] h = (tt, tt)
items-HasNoSpace (x ∷ xs) h = h

-- A command that does not end in a space is spawned with the path that the search gives for its
-- first item and with its other items: no item has a space, and joined by spaces the items are the
-- command.
pub spawn_process-join :
    (search_path : List ℕ → Option (List ℕ)) (command path : List ℕ)
    → ends_in_space command ≡ false
    → search_path (first_item (getlines command)) ≡ some path
    → (exe : List ℕ) × (args : List (List ℕ)) × (search_path exe ≡ some path)
      × (spawn_process search_path command ≡ spawn path args ∷ [])
      × (join (exe ∷ args) ≡ command)
      × All HasNoSpace (exe ∷ args)
unfolding spawn_process
spawn_process-join search_path command path h found =
    let items = getlines command in
    (
      first_item items,
      other_items items,
      found,
      rw (found, spawn_process) refl,
      items-join items ∙ getlines-join command h,
      items-HasNoSpace items (getlines-HasNoSpace command),
    )
