-- ===== src/Prelude/Bits.antt =====
-- Single bits of a native number, and what `|` and `&` do to them.
use Prim.Native.Nat.{
  ℕ, zero, suc, ◌+◌, ◌-◌, ◌*◌, ◌/◌, ◌%◌, ◌^◌, ◌≤◌, ◌<◌, min, max, digits, bit_and, bit_or,
  bit_and-bitwise, bit_or-bitwise,
}
use mathlib.Core.Path.{◌≡◌, refl, ap, ◌∙◌}
use mathlib.Core.Bool.{Bool, true, false, not, ◌&&◌, ◌||◌}
use mathlib.Core.Logic.{◌⊎◌, inl, inr}
use native.Mathlib.Omega.{arith}
use native.Mathlib.Nat.{pow-suc}
use glogi_k.Prelude.Tests.{◌==◌, if◌then◌else◌}

-- The fuel of the library's recursion on digits does not matter once it covers the number.
module _ (rest : ℕ → ℕ) (digit : ℕ → ℕ → ℕ) where
  more_fuel : (k l a b : ℕ) → a ≤ k → k ≤ l → digits rest digit k a b ≡ digits rest digit l a b
  more_fuel zero zero a b p q = refl
  more_fuel zero (suc l) zero b p q = refl
  more_fuel zero (suc l) (suc a) b p q = absurd (omega arith)
  more_fuel (suc k) zero a b p q = absurd (omega arith)
  more_fuel (suc k) (suc l) zero b p q = refl
  more_fuel (suc k) (suc l) (suc a) b p q =
      rw (more_fuel k l (suc a / 2) (b / 2) (omega arith) (omega arith))

bit_or-half : (a b : ℕ) → bit_or a b ≡ bit_or (a / 2) (b / 2) * 2 + max (a % 2) (b % 2)
bit_or-half zero b = omega (arith, bit_or-bitwise 0 b, bit_or-bitwise 0 (b / 2))
bit_or-half (suc a) b = omega (
  arith,
  bit_or-bitwise (suc a) b,
  bit_or-bitwise (suc a / 2) (b / 2),
  more_fuel (λ y. y) max (suc a / 2) a (suc a / 2) (b / 2) (omega arith) (omega arith),
)

bit_and-half : (a b : ℕ) → bit_and a b ≡ bit_and (a / 2) (b / 2) * 2 + min (a % 2) (b % 2)
bit_and-half zero b = omega (arith, bit_and-bitwise 0 b, bit_and-bitwise 0 (b / 2))
bit_and-half (suc a) b = omega (
  arith,
  bit_and-bitwise (suc a) b,
  bit_and-bitwise (suc a / 2) (b / 2),
  more_fuel (λ y. 0) min (suc a / 2) a (suc a / 2) (b / 2) (omega arith) (omega arith),
)

-- Bit `k` of a number, 0 or 1.
pub bit : ℕ → ℕ → ℕ
bit a zero = a % 2
bit a (suc k) = bit (a / 2) k

pub bit_lt : (a k : ℕ) → bit a k < 2
unfolding bit
bit_lt a zero = omega arith
bit_lt a (suc k) = bit_lt (a / 2) k

pub bit-or : (a b k : ℕ) → bit (bit_or a b) k ≡ max (bit a k) (bit b k)
unfolding bit
bit-or a b zero = omega (arith, bit_or-half a b)
bit-or a b (suc k) =
    let half : bit_or a b / 2 ≡ bit_or (a / 2) (b / 2) = omega (arith, bit_or-half a b) in
    rw half (bit-or (a / 2) (b / 2) k)

pub bit-and : (a b k : ℕ) → bit (bit_and a b) k ≡ min (bit a k) (bit b k)
unfolding bit
bit-and a b zero = omega (arith, bit_and-half a b)
bit-and a b (suc k) =
    let half : bit_and a b / 2 ≡ bit_and (a / 2) (b / 2) = omega (arith, bit_and-half a b) in
    rw half (bit-and (a / 2) (b / 2) k)

and_zero : (n a : ℕ) → a ≤ n → bit_and a 0 ≡ 0
and_zero zero a h =
    omega (arith, bit_and-half a 0, bit_and-bitwise 0 0, ap (λ (t : ℕ). bit_and t 0) (zero_of a h))
  where
    zero_of : (b : ℕ) → b ≤ 0 → b ≡ 0
    zero_of b le = omega arith
and_zero (suc n) zero h = bit_and-bitwise 0 0
and_zero (suc n) (suc a) h =
    omega (arith, bit_and-half (suc a) 0, and_zero n (suc a / 2) (omega arith))

-- A mask of one bit.
pub and-pow : (a k : ℕ) → bit_and a (2 ^ k) ≡ bit a k * 2 ^ k
unfolding bit
and-pow a zero = omega (arith, bit_and-half a 1, and_zero (a / 2) (a / 2) (omega arith))
and-pow a (suc k) = omega (
  arith,
  bit_and-half a (2 ^ suc k),
  pow-suc 2 k,
  and-pow (a / 2) k,
  ap (λ (t : ℕ). bit (a / 2) k * t) (pow-suc 2 k),
  ap (λ (t : ℕ). bit_and (a / 2) t) half,
)
  where
    half : 2 ^ suc k / 2 ≡ 2 ^ k
    half = omega (arith, pow-suc 2 k)

-- `mask & flag` as a condition.
abbrev pub has : ℕ → ℕ → Bool
has mask flag = not (bit_and mask flag == 0)

pub pow_pos : (k : ℕ) → 1 ≤ 2 ^ k
pow_pos zero = omega arith
pow_pos (suc k) = omega (arith, pow-suc 2 k, pow_pos k)

bit_cases : (a k : ℕ) → (bit a k ≡ 0) ⊎ (bit a k ≡ 1)
bit_cases a k = ground (arith, bit_lt a k)

-- The condition on a flag of one bit reads that bit.
pub has-pow : (a k : ℕ) → has a (2 ^ k) ≡ (bit a k == 1)
has-pow a k = elim (bit_cases a k) [
  | inl e ↦ ground (arith, and-pow a k, ap (λ (t : ℕ). t * 2 ^ k) e, pow_pos k)
  | inr e ↦ ground (arith, and-pow a k, ap (λ (t : ℕ). t * 2 ^ k) e, pow_pos k)
]

pub bit-zero : (k : ℕ) → bit 0 k ≡ 0
unfolding bit
bit-zero zero = refl
bit-zero (suc k) = bit-zero k

pub bit-pow : (k j : ℕ) → bit (2 ^ k) j ≡ (if k == j then 1 else 0)
unfolding bit
bit-pow zero zero = refl
bit-pow zero (suc j) = ground (arith, bit-zero j)
bit-pow (suc k) zero = ground (arith, pow-suc 2 k)
bit-pow (suc k) (suc j) =
    let half : 2 ^ suc k / 2 ≡ 2 ^ k = omega (arith, pow-suc 2 k) in
    rw half (ground (arith, bit-pow k j))

-- Setting a flag of one bit sets that bit and no other.
pub bit-or-pow : (a k j : ℕ) → bit (bit_or a (2 ^ k)) j ≡ (if k == j then 1 else bit a j)
bit-or-pow a k j = ground (arith, bit-or a (2 ^ k) j, bit-pow k j, bit_lt a j)

-- Setting a flag under a condition, `if(c) mask |= flag;`.
pub has-or : (a k j : ℕ) → has (bit_or a (2 ^ k)) (2 ^ j) ≡ (k == j || has a (2 ^ j))
has-or a k j = ground (arith, has-pow (bit_or a (2 ^ k)) j, has-pow a j, bit-or-pow a k j)

-- `if(c) mask |= flag;`
pub has-set :
    (c : Bool) (a k j : ℕ)
    → has (if c then bit_or a (2 ^ k) else a) (2 ^ j) ≡ ((k == j && c) || has a (2 ^ j))
has-set true a k j = has-or a k j ∙ ground arith
has-set false a k j = ground arith

pub or_assoc_swap : (a b c d : Bool) → (a || ((b && c) || d)) ≡ (((b && c) || a) || d)
or_assoc_swap true b c d = ground arith
or_assoc_swap false b c d = ground arith

pub has-zero : (flag : ℕ) → has 0 flag ≡ false
has-zero flag = ground (arith, bit_and-bitwise 0 flag)

-- Every bit of `a` is set in `b`.
abbrev pub Within : ℕ → ℕ → Type 0
Within a b = (k : ℕ) → bit a k ≤ bit b k

pub none-Within : (n : ℕ) → Within 0 n
none-Within n k = omega (arith, bit-zero k)

Within-le_below : (n a b : ℕ) → a ≤ n → Within a b → a ≤ b
unfolding bit
Within-le_below n zero b h w = omega arith
Within-le_below zero (suc a) b h w = absurd (omega arith)
Within-le_below (suc n) (suc a) b h w =
    omega (arith, w 0, Within-le_below n (suc a / 2) (b / 2) (omega arith) (λ k. w (suc k)))

pub Within-le : (a b : ℕ) → Within a b → a ≤ b
Within-le a b w = Within-le_below a a b (omega arith) w

-- Where every bit of `a` is set in `b`, subtraction takes bit from bit.
pub bit-sub : (a b k : ℕ) → Within a b → bit (b - a) k ≡ bit b k - bit a k
unfolding bit
bit-sub a b zero w = omega (arith, w 0, Within-le a b w)
bit-sub a b (suc k) w =
    let halves : (b - a) / 2 ≡ b / 2 - a / 2 =
      omega (arith, w 0, Within-le (a / 2) (b / 2) (λ j. w (suc j))) in
    rw halves (bit-sub (a / 2) (b / 2) k (λ j. w (suc j)))

pub has-sub :
    (a b k : ℕ) → Within a b → has (b - a) (2 ^ k) ≡ (has b (2 ^ k) && not (has a (2 ^ k)))
has-sub a b k w = ground (
  arith,
  has-pow (b - a) k,
  has-pow a k,
  has-pow b k,
  bit-sub a b k w,
  bit_lt a k,
  bit_lt b k,
  w k,
)
