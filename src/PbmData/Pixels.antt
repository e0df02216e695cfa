-- ===== src/PbmData/Pixels.antt =====
-- Every pixel of a PBM frame comes into its place in the LCD buffer.
use glogi_k.Prelude.{
  ℕ, zero, suc, ◌+◌, ◌-◌, ◌*◌, ◌/◌, ◌%◌, ◌^◌, ◌≤◌, ◌<◌, ◌≡◌, inl, inr, ap, ◌∙◌, List, some,
  get_elem?, get_or, Bool-cases, leb, bit_or, length, arith, ◌==◌, if◌then◌else◌,
}
use glogi_k.Prelude.Bits.{bit, bit-zero, bit-or, bit-pow}
use glogi_k.PbmData.{lcd_byte, write_rows, dump_pbm_data_into_lcd_buffer}
use glogi_k.PbmData.Writes.{write_rows-Outside, write_rows-inside}

-- Bits that are shifted to their places and put together.
or_all : ℕ → (ℕ → ℕ) → ℕ
or_all zero c = c 0 * 2 ^ 0
or_all (suc n) c = bit_or (or_all n c) (c (suc n) * 2 ^ suc n)

bit-digit : (c l k : ℕ) → c < 2 → bit (c * 2 ^ l) k ≡ (if l == k then c else 0)
bit-digit zero l k h = ground (arith, bit-zero k)
bit-digit (suc zero) l k h =
    let same : 1 * 2 ^ l ≡ 2 ^ l = omega arith in ap (λ t. bit t k) same ∙ bit-pow l k
bit-digit (suc (suc c)) l k h = absurd (omega (arith, h))

bit-or_all :
    (n : ℕ) (c : ℕ → ℕ) (k : ℕ)
    → ((l : ℕ) → c l < 2)
    → bit (or_all n c) k ≡ (if leb k n then c k else 0)
unfolding or_all
bit-or_all zero c zero h = bit-digit (c 0) 0 0 (h 0)
bit-or_all zero c (suc k) h = bit-digit (c 0) 0 (suc k) (h 0) ∙ ground arith
bit-or_all (suc n) c k h =
    let old = bit-or_all n c k h in
    let new = bit-digit (c (suc n)) (suc n) k (h (suc n)) in
    let both = bit-or (or_all n c) (c (suc n) * 2 ^ suc n) k in
    elim (Bool-cases (suc n == k)) [
      | inl t ↦
          let same : suc n ≡ k = ground (arith, t) in
          ground (arith, old, new, both, ap c same, t, same)
      | inr t ↦ ground (arith, old, new, both, t)
    ]

bit-lcd_byte :
    (pbm : List ℕ) (row byte b k : ℕ)
    → k < 8
    → bit (lcd_byte pbm row byte b) k ≡ get_or pbm (byte + 20 * k + 160 * row) 0 / 2 ^ b % 2
unfolding lcd_byte or_all
bit-lcd_byte pbm row byte b k h =
    let digit : ℕ → ℕ = λ l. get_or pbm (byte + 20 * l + 160 * row) 0 / 2 ^ b % 2 in
    bit-or_all 7 digit k (λ l. omega arith) ∙ ground (arith, h)

-- After `dumpPBMDataIntoLCDBuffer`, from any frame into a buffer of at least 32 + 960 bytes: the pixel
-- in column `x` and line `y` of the frame is bit `y % 8` of the byte of the buffer for the column
-- `x` of the row `y / 8`, and the header of 32 bytes is as before.
pub dump_pbm_data_into_lcd_buffer-pixel :
    (buffer pbm : List ℕ) (x y : ℕ)
    → 992 ≤ length buffer
    → x < 160
    → y < 48
    → (v : ℕ) × (get_elem? (dump_pbm_data_into_lcd_buffer buffer pbm) (32 + 160 * (y / 8) + x)
        ≡ some v)
      × (bit v (y % 8) ≡ get_or pbm (20 * y + x / 8) 0 / 2 ^ (7 - x % 8) % 2)
      × ((a : ℕ)
          → a < 32
          → get_elem? (dump_pbm_data_into_lcd_buffer buffer pbm) a ≡ get_elem? buffer a)
unfolding dump_pbm_data_into_lcd_buffer
dump_pbm_data_into_lcd_buffer-pixel buffer pbm x y h hx hy = (
  lcd_byte pbm (y / 8) (x / 8) (7 - x % 8),
  ap (get_elem? (write_rows 6 pbm 0 buffer)) (omega (arith, hx, hy))
      ∙ write_rows-inside 6 pbm 0 (y / 8) (x / 8) (7 - x % 8) buffer (omega (arith, h))
          (omega (arith, hy)) (omega (arith, hx)) (omega arith)
      ∙ ap (λ r. some (lcd_byte pbm r (x / 8) (7 - x % 8))) (omega arith),
  bit-lcd_byte pbm (y / 8) (x / 8) (7 - x % 8) (y % 8) (omega arith)
      ∙ ap (λ i. get_or pbm i 0 / 2 ^ (7 - x % 8) % 2) (omega (arith, hy)),
  λ a l. write_rows-Outside 6 pbm 0 a buffer (omega (arith, h)) (inl (omega (arith, l))),
)
