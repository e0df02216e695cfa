-- ===== src/Filesystem/Names.antt =====
-- The name that `getNextAvailableFileName` returns is not one of those that are used.
use glogi_k.Prelude.{
  ℕ, zero, suc, ◌+◌, Bool, true, false, not, ◌&&◌, List, [], ◌∷◌, some, ◌≡◌, refl, arith,
}
use glogi_k.Filesystem.{FileName, same_name, is_in_set, next_name, get_next_available_file_name}

pub same_name_self : (name : FileName) → same_name name name ≡ true
unfolding same_name
same_name_self [] = refl
same_name_self (x ∷ xs) = ground (arith, same_name_self xs)

pub same_name→eq : (a b : FileName) → same_name a b ≡ true → a ≡ b
unfolding same_name
same_name→eq [] [] h = refl
same_name→eq [] (y ∷ ys) h = ground arith
same_name→eq (x ∷ xs) [] h = ground arith
same_name→eq (x ∷ xs) (y ∷ ys) h = ground (arith, same_name→eq xs ys)

next_name-unused :
    (rounds : ℕ) (to_skip : List FileName) (is_regular_file : FileName → Bool)
    (base extension : FileName) (must_exist : Bool) (c : ℕ) (name : FileName)
    → next_name rounds to_skip is_regular_file base extension must_exist c ≡ some name
    → (is_in_set name to_skip ≡ false) × ((must_exist && not (is_regular_file name)) ≡ false)
unfolding next_name
next_name-unused zero to_skip f base extension must_exist c name e = absurd (ground arith)
next_name-unused (suc rounds) to_skip f base extension must_exist c name e =
    ground (arith, next_name-unused rounds to_skip f base extension must_exist (c + 1) name)

pub get_next_available_file_name-unused :
    (to_skip : List FileName) (is_regular_file : FileName → Bool) (base_name extension : FileName)
    (must_exist : Bool) {name : FileName}
    → get_next_available_file_name to_skip is_regular_file base_name extension must_exist
      ≡ some name
    → (is_in_set name to_skip ≡ false) × ((must_exist && not (is_regular_file name)) ≡ false)
unfolding get_next_available_file_name
get_next_available_file_name-unused to_skip f base_name extension must_exist e =
    next_name-unused 10 to_skip f _ extension must_exist 0 _ e
