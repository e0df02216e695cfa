-- ===== src/PbmData/Writes.antt =====
-- What the loops of `dumpPBMDataIntoLCDBuffer` write into the LCD buffer, and what they leave.
use glogi_k.Prelude.{
  ℕ, zero, suc, ◌+◌, ◌-◌, ◌*◌, ◌≤◌, ◌<◌, ◌≡◌, ◌⊎◌, inl, inr, refl, ap, ◌∙◌, List, some, get_elem?,
  set, Bool-cases, length, length-set, get_elem?-set, arith, ◌==◌,
}
use glogi_k.PbmData.{lcd_byte, write_bits, write_bytes, write_rows}

write_bits-length :
    (n : ℕ) (pbm : List ℕ) (row byte col : ℕ) (buffer : List ℕ)
    → length (write_bits n pbm row byte col buffer) ≡ length buffer
unfolding write_bits
write_bits-length zero pbm row byte col buffer = refl
write_bits-length (suc n) pbm row byte col buffer =
    write_bits-length n pbm row byte (col + 1) _ ∙ length-set buffer _ _

-- What a loop writes stands between two indexes.
abbrev pub Outside : ℕ → ℕ → ℕ → Type 0
Outside lo hi a = (a < lo) ⊎ (hi ≤ a)

write_bits-Outside :
    (n : ℕ) (pbm : List ℕ) (row byte col a : ℕ) (buffer : List ℕ)
    → 32 + col + 160 * row + n ≤ length buffer
    → Outside (32 + col + 160 * row) (32 + col + 160 * row + n) a
    → get_elem? (write_bits n pbm row byte col buffer) a ≡ get_elem? buffer a
unfolding write_bits
write_bits-Outside zero pbm row byte col a buffer h o = refl
write_bits-Outside (suc n) pbm row byte col a buffer h o =
    let v = lcd_byte pbm row byte n in
    let i = 32 + col + 160 * row in
    write_bits-Outside n pbm row byte (col + 1) a (set buffer i v)
      (omega (arith, h, length-set buffer i v))
      (elim o [ inl l ↦ inl (omega (arith, l)) | inr l ↦ inr (omega (arith, l)) ])
    ∙ get_elem?-set buffer i a v (omega (arith, h))
    ∙ elim o [ inl l ↦ ground (arith, l) | inr l ↦ ground (arith, l) ]

write_bits-inside :
    (n : ℕ) (pbm : List ℕ) (row byte col b : ℕ) (buffer : List ℕ)
    → 32 + col + 160 * row + n ≤ length buffer
    → b < n
    → get_elem? (write_bits n pbm row byte col buffer) (32 + col + 160 * row + (n - 1 - b))
      ≡ some (lcd_byte pbm row byte b)
unfolding write_bits
write_bits-inside zero pbm row byte col b buffer h l = absurd (omega (arith, l))
write_bits-inside (suc n) pbm row byte col b buffer h l =
    let v = lcd_byte pbm row byte n in
    let i = 32 + col + 160 * row in
    let rest = write_bits n pbm row byte (col + 1) (set buffer i v) in
    let room : 32 + (col + 1) + 160 * row + n ≤ length (set buffer i v) =
      omega (arith, h, length-set buffer i v) in
    elim (Bool-cases (b == n)) [
      | inl t ↦
          let same : b ≡ n = ground (arith, t) in
          ap (get_elem? rest) (omega (arith, same))
          ∙ write_bits-Outside n pbm row byte (col + 1) i (set buffer i v) room (inl (omega arith))
          ∙ get_elem?-set buffer i i v (omega (arith, h))
          ∙ ground (arith, ap (lcd_byte pbm row byte) same)
      | inr t ↦
          let less : b < n = ground (arith, t, l) in
          ap (get_elem? rest) (omega (arith, less))
          ∙ write_bits-inside n pbm row byte (col + 1) b (set buffer i v) room less
    ]

pub write_bytes-length :
    (n : ℕ) (pbm : List ℕ) (row byte col : ℕ) (buffer : List ℕ)
    → length (write_bytes n pbm row byte col buffer) ≡ length buffer
unfolding write_bytes
write_bytes-length zero pbm row byte col buffer = refl
write_bytes-length (suc n) pbm row byte col buffer =
    write_bytes-length n pbm row (byte + 1) (col + 8) _
    ∙ write_bits-length 8 pbm row byte col buffer

write_bytes-Outside :
    (n : ℕ) (pbm : List ℕ) (row byte col a : ℕ) (buffer : List ℕ)
    → 32 + col + 160 * row + 8 * n ≤ length buffer
    → Outside (32 + col + 160 * row) (32 + col + 160 * row + 8 * n) a
    → get_elem? (write_bytes n pbm row byte col buffer) a ≡ get_elem? buffer a
unfolding write_bytes
write_bytes-Outside zero pbm row byte col a buffer h o = refl
write_bytes-Outside (suc n) pbm row byte col a buffer h o =
    write_bytes-Outside n pbm row (byte + 1) (col + 8) a (write_bits 8 pbm row byte col buffer)
      (omega (arith, h, write_bits-length 8 pbm row byte col buffer))
      (elim o [ inl l ↦ inl (omega (arith, l)) | inr l ↦ inr (omega (arith, l)) ])
    ∙ write_bits-Outside 8 pbm row byte col a buffer (omega (arith, h))
        (elim o [ inl l ↦ inl (omega (arith, l)) | inr l ↦ inr (omega (arith, l)) ])

write_bytes-inside :
    (n : ℕ) (pbm : List ℕ) (row byte col i b : ℕ) (buffer : List ℕ)
    → 32 + col + 160 * row + 8 * n ≤ length buffer
    → i < n
    → b < 8
    → get_elem? (write_bytes n pbm row byte col buffer) (32 + col + 160 * row + 8 * i + (7 - b))
      ≡ some (lcd_byte pbm row (byte + i) b)
unfolding write_bytes
write_bytes-inside zero pbm row byte col i b buffer h l c = absurd (omega (arith, l))
write_bytes-inside (suc n) pbm row byte col zero b buffer h l c =
    let first = write_bits 8 pbm row byte col buffer in
    write_bytes-Outside n pbm row (byte + 1) (col + 8) _ first
      (omega (arith, h, write_bits-length 8 pbm row byte col buffer)) (inl (omega (arith, c)))
    ∙ ap (get_elem? first) (omega (arith, c))
    ∙ write_bits-inside 8 pbm row byte col b buffer (omega (arith, h)) c
    ∙ ap (λ k. some (lcd_byte pbm row k b)) (omega arith)
write_bytes-inside (suc n) pbm row byte col (suc i) b buffer h l c =
    let first = write_bits 8 pbm row byte col buffer in
    ap (get_elem? (write_bytes n pbm row (byte + 1) (col + 8) first)) (omega arith)
    ∙ write_bytes-inside n pbm row (byte + 1) (col + 8) i b first
        (omega (arith, h, write_bits-length 8 pbm row byte col buffer)) (omega (arith, l)) c
    ∙ ap (λ k. some (lcd_byte pbm row k b)) (omega arith)

pub write_rows-Outside :
    (n : ℕ) (pbm : List ℕ) (row a : ℕ) (buffer : List ℕ)
    → 32 + 160 * (row + n) ≤ length buffer
    → Outside (32 + 160 * row) (32 + 160 * (row + n)) a
    → get_elem? (write_rows n pbm row buffer) a ≡ get_elem? buffer a
unfolding write_rows
write_rows-Outside zero pbm row a buffer h o = refl
write_rows-Outside (suc n) pbm row a buffer h o =
    write_rows-Outside n pbm (row + 1) a (write_bytes 20 pbm row 0 0 buffer)
      (omega (arith, h, write_bytes-length 20 pbm row 0 0 buffer))
      (elim o [ inl l ↦ inl (omega (arith, l)) | inr l ↦ inr (omega (arith, l)) ])
    ∙ write_bytes-Outside 20 pbm row 0 0 a buffer (omega (arith, h))
        (elim o [ inl l ↦ inl (omega (arith, l)) | inr l ↦ inr (omega (arith, l)) ])

pub write_rows-inside :
    (n : ℕ) (pbm : List ℕ) (row r i b : ℕ) (buffer : List ℕ)
    → 32 + 160 * (row + n) ≤ length buffer
    → r < n
    → i < 20
    → b < 8
    → get_elem? (write_rows n pbm row buffer) (32 + 160 * (row + r) + 8 * i + (7 - b))
      ≡ some (lcd_byte pbm (row + r) i b)
unfolding write_rows
write_rows-inside zero pbm row r i b buffer h l d c = absurd (omega (arith, l))
write_rows-inside (suc n) pbm row zero i b buffer h l d c =
    let first = write_bytes 20 pbm row 0 0 buffer in
    write_rows-Outside n pbm (row + 1) _ first
      (omega (arith, h, write_bytes-length 20 pbm row 0 0 buffer)) (inl (omega (arith, c, d)))
    ∙ ap (get_elem? first) (omega (arith, c, d))
    ∙ write_bytes-inside 20 pbm row 0 0 i b buffer (omega (arith, h)) d c
    ∙ ap (λ k. some (lcd_byte pbm row k b)) (omega arith)
    ∙ ap (λ k. some (lcd_byte pbm k i b)) (omega arith)
write_rows-inside (suc n) pbm row (suc r) i b buffer h l d c =
    let first = write_bytes 20 pbm row 0 0 buffer in
    ap (get_elem? (write_rows n pbm (row + 1) first)) (omega arith)
    ∙ write_rows-inside n pbm (row + 1) r i b first
        (omega (arith, h, write_bytes-length 20 pbm row 0 0 buffer)) (omega (arith, l)) d c
    ∙ ap (λ k. some (lcd_byte pbm k i b)) (omega arith)
