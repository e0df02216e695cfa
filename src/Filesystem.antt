-- ===== src/Filesystem.antt =====
-- src/lib/utils/filesystem.cpp, `getNextAvailableFileName`. A name is the list of its character
-- codes. Whether a path is a regular file is an argument, false also where the test throws.
pub mod Names
use glogi_k.Prelude.{
  ℕ, zero, suc, ◌+◌, ◌/◌, ◌%◌, Bool, true, false, not, ◌&&◌, ◌||◌, List, [], ◌∷◌, ◌++◌, map, Option,
  none, some, ltb, ◌==◌, if◌then◌else◌,
}

abbrev pub FileName : Type 0
FileName = List ℕ

-- Equality of strings.
unfoldable pub same_name : FileName → FileName → Bool
same_name [] [] = true
same_name [] (y ∷ ys) = false
same_name (x ∷ xs) [] = false
same_name (x ∷ xs) (y ∷ ys) = x == y && same_name xs ys

-- std::set::count
unfoldable pub is_in_set : FileName → List FileName → Bool
is_in_set name [] = false
is_in_set name (other ∷ others) = same_name name other || is_in_set name others

-- std::to_string, with a round for each digit; two digits are enough for the counter below.
unfoldable pub to_string : ℕ → ℕ → List ℕ
to_string zero n = []
to_string (suc digits) n =
    let front = to_string digits (n / 10) in
    if ltb n 10 then (b'0' + n) ∷ [] else front ++ (b'0' + n % 10) ∷ []

-- The two calls of std::replace.
unfoldable pub replace_code : ℕ → ℕ
replace_code c = if c == b'/' || c == b' ' then b'_' else c

-- base_c.extension
unfoldable pub numbered : FileName → FileName → ℕ → FileName
numbered base extension c = base ++ (b'_' ∷ to_string 2 c) ++ (b'.' ∷ extension)

-- The `while` loop, on the number of rounds left.
unfoldable pub next_name :
    ℕ → List FileName → (FileName → Bool) → FileName → FileName → Bool → ℕ → Option FileName
next_name zero to_skip is_regular_file base extension must_exist c = none
next_name (suc rounds) to_skip is_regular_file base extension must_exist c =
    let name = numbered base extension (c + 1) in
    let later = next_name rounds to_skip is_regular_file base extension must_exist (c + 1) in
    if is_in_set name to_skip
    then later
    else if must_exist && not (is_regular_file name)
    then later
    else some name

-- `none` is the exception.
unfoldable pub get_next_available_file_name :
    List FileName → (FileName → Bool) → FileName → FileName → Bool → Option FileName
get_next_available_file_name to_skip is_regular_file base_name extension must_exist =
    next_name 10 to_skip is_regular_file (map replace_code base_name) extension must_exist 0
