-- ===== src/PbmData.antt =====
-- src/bin/daemon/LCDScreenPluginsManager.cpp, `dumpPBMDataIntoLCDBuffer`, and the sizes of
-- src/bin/daemon/LCDPlugins/PBM.hpp: a PBM frame, rows of bytes with the first pixel in bit 7, is put
-- into the LCD buffer, where a byte is a column of eight pixels.
pub mod Writes
pub mod Pixels
use glogi_k.Prelude.{ℕ, zero, suc, ◌+◌, ◌*◌, ◌/◌, ◌%◌, ◌^◌, List, bit_or, get_or, set}

abbrev pub pbm_height_in_bytes : ℕ
pbm_height_in_bytes = 6

abbrev pub pbm_width : ℕ
pbm_width = 160

abbrev pub pbm_width_in_bytes : ℕ
pbm_width_in_bytes = 20

abbrev pub lcd_data_header_offset : ℕ
lcd_data_header_offset = 32

-- ((PBMData[PBMByte + DEFAULT_PBM_WIDTH_IN_BYTES * line + rowOffset] >> bit) & 1) << line
abbrev pub shifted_pixel : List ℕ → ℕ → ℕ → ℕ → ℕ → ℕ
shifted_pixel pbm row byte bit line =
    (get_or pbm (byte + pbm_width_in_bytes * line + pbm_width * row) 0 / 2 ^ bit % 2) * 2 ^ line

unfoldable pub lcd_byte : List ℕ → ℕ → ℕ → ℕ → ℕ
lcd_byte pbm row byte bit =
    let pixel = shifted_pixel pbm row byte bit in
    bit_or
      (bit_or
        (bit_or
          (bit_or (bit_or (bit_or (bit_or (pixel 0) (pixel 1)) (pixel 2)) (pixel 3)) (pixel 4))
          (pixel 5))
        (pixel 6))
      (pixel 7)

-- for(int bit = 7; bit > -1; --bit), on the number of rounds left, and LCDCol.
unfoldable pub write_bits : ℕ → List ℕ → ℕ → ℕ → ℕ → List ℕ → List ℕ
write_bits zero pbm row byte col buffer = buffer
write_bits (suc bit) pbm row byte col buffer =
    write_bits bit pbm row byte (col + 1)
      (set buffer (lcd_data_header_offset + col + pbm_width * row) (lcd_byte pbm row byte bit))

-- The loop over the bytes of a row, which takes LCDCol on by the eight bits of each.
unfoldable pub write_bytes : ℕ → List ℕ → ℕ → ℕ → ℕ → List ℕ → List ℕ
write_bytes zero pbm row byte col buffer = buffer
write_bytes (suc n) pbm row byte col buffer =
    write_bytes n pbm row (byte + 1) (col + 8) (write_bits 8 pbm row byte col buffer)

unfoldable pub write_rows : ℕ → List ℕ → ℕ → List ℕ → List ℕ
write_rows zero pbm row buffer = buffer
write_rows (suc n) pbm row buffer =
    write_rows n pbm (row + 1) (write_bytes pbm_width_in_bytes pbm row 0 0 buffer)

unfoldable pub dump_pbm_data_into_lcd_buffer : List ℕ → List ℕ → List ℕ
unfolding write_rows
dump_pbm_data_into_lcd_buffer buffer pbm = write_rows pbm_height_in_bytes pbm 0 buffer
