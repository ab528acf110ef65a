-- ===== src/Sbf/Crc.antt =====
-- src/sbf/crc16_xmodem.hpp: the table and the table-driven checksum.
pub mod Reference
use asterx_driver.Base.{
  ℕ, zero, suc, ◌+◌, ◌%◌, List, [], ◌∷◌, bit_xor, ◌==◌, if◌then◌else◌, get_or, u16, ◌<<<◌, ◌>>>◌,
  Bytes,
}

-- One round of the inner loop of `make_crc_table`; `c & 0x8000` is bit 15.
unfoldable pub table_round : ℕ → ℕ
table_round c = if (c >>> 15) % 2 == 1 then u16 (bit_xor (c <<< 1) 0x1021) else u16 (c <<< 1)

unfoldable pub table_rounds : ℕ → ℕ → ℕ
table_rounds zero c = c
table_rounds (suc n) c = table_rounds n (table_round c)

unfoldable pub table_entry : ℕ → ℕ
table_entry i = table_rounds 8 (u16 (i <<< 8))

-- The entries from `i` on, `left` of them.
unfoldable pub fill_table : ℕ → ℕ → List ℕ
fill_table zero i = []
fill_table (suc left) i = table_entry i ∷ fill_table left (i + 1)

unfoldable pub make_crc_table : List ℕ
make_crc_table = fill_table 256 0

-- The loop body: the index is below 256 for a 16-bit checksum and a byte.
unfoldable pub crc_step : ℕ → ℕ → ℕ
crc_step crc byte = u16 (bit_xor (crc <<< 8) (get_or make_crc_table (bit_xor (crc >>> 8) byte) 0))

unfoldable pub crc_from : ℕ → Bytes → ℕ
crc_from crc [] = crc
crc_from crc (byte ∷ bytes) = crc_from (crc_step crc byte) bytes

unfoldable pub crc_ccitt_xmodem : Bytes → ℕ
crc_ccitt_xmodem = crc_from 0
