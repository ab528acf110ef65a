-- ===== src/Sbf/Crc/Reference.antt =====
-- The checksum as the serial shift register of CRC-16/XMODEM, and the table against it.
use mathlib.Core.Path.{ap₂}
use asterx_driver.Base.{
  ℕ, zero, suc, ◌+◌, ◌*◌, ◌/◌, ◌%◌, ◌<◌, true, false, List, [], ◌∷◌, ◌≡◌, refl, sym, ap, ◌∙◌, inl,
  inr, arith, bit_xor, ◌==◌, if◌then◌else◌, Bool-cases, get_or, u16, Bytes,
}
use asterx_driver.Base.Bits.{
  bit_xor_step, bit_xor_comm, bit_xor_assoc, bit_xor-zero, bit_xor-shl, bit_xor-lt, shl,
}
use asterx_driver.Sbf.Crc.{
  table_round, table_rounds, table_entry, fill_table, make_crc_table, crc_step, crc_from,
  crc_ccitt_xmodem,
}

-- One bit enters the 16-bit register: polynomial x^16 + x^12 + x^5 + 1.
pub shift_bit : ℕ → ℕ → ℕ
shift_bit reg bit =
    if (reg / 32768 + bit) % 2 == 1 then bit_xor (reg * 2 % 65536) 0x1021 else reg * 2 % 65536

pub shift_bits : ℕ → List ℕ → ℕ
shift_bits reg [] = reg
shift_bits reg (bit ∷ bits) = shift_bits (shift_bit reg bit) bits

-- The most significant bit goes first.
abbrev pub bits_of : ℕ → List ℕ
bits_of b =
    (b / 128 % 2)
    ∷ (b / 64 % 2)
    ∷ (b / 32 % 2)
    ∷ (b / 16 % 2)
    ∷ (b / 8 % 2)
    ∷ (b / 4 % 2)
    ∷ (b / 2 % 2)
    ∷ (b % 2)
    ∷ []

pub serial_crc : ℕ → Bytes → ℕ
serial_crc reg [] = reg
serial_crc reg (b ∷ bytes) = serial_crc (shift_bits reg (bits_of b)) bytes

abbrev pub AllBytes : Bytes → Type 0
AllBytes [] = Unit {0}
AllBytes (b ∷ bytes) = (b < 256) × AllBytes bytes

shift_bit-lt : (r b : ℕ) → shift_bit r b < 65536
unfolding shift_bit
shift_bit-lt r b = ground (arith, bit_xor-lt 16 (r * 2 % 65536) 0x1021 (omega arith) (omega arith))

-- Split at bit 15.
bit_xor_split :
    (r w : ℕ)
    → r < 65536
    → w < 65536
    → (bit_xor r w / 32768 % 2 ≡ (r / 32768 + w / 32768) % 2)
      × (bit_xor r w * 2 % 65536 ≡ bit_xor (r * 2 % 65536) (w * 2 % 65536))
      × (bit_xor r w < 65536)
bit_xor_split r w p q =
    let rh = r / 32768 in
    let wh = w / 32768 in
    let rl = r % 32768 in
    let wl = w % 32768 in
    let whole : bit_xor r w ≡ bit_xor (shl 15 rh + rl) (shl 15 wh + wl) =
      ap₂ bit_xor (omega arith) (omega arith) in
    let parts = bit_xor-shl 15 rh wh rl wl (omega arith) (omega arith) in
    let small = bit_xor-lt 15 rl wl (omega arith) (omega arith) in
    let top = bit_xor_step rh wh in
    let none_left : bit_xor (rh / 2) (wh / 2) ≡ 0 =
      ap₂ {C = ℕ} bit_xor {y = 0} {v = 0} (omega arith) (omega arith) in
    let low = bit_xor-shl 1 rl wl 0 0 (omega arith) (omega arith) in
    let doubled : bit_xor (r * 2 % 65536) (w * 2 % 65536) ≡ bit_xor (shl 1 rl + 0) (shl 1 wl + 0) =
      ap₂ bit_xor (omega arith) (omega arith) in
    (omega arith, omega arith, omega arith)

u16-bit_xor : (a b : ℕ) → b < 65536 → u16 (bit_xor a b) ≡ bit_xor (a % 65536) b
u16-bit_xor a b h =
    let whole : bit_xor a b ≡ bit_xor (shl 16 (a / 65536) + a % 65536) (shl 16 0 + b) =
      ap₂ bit_xor (omega arith) (omega arith) in
    omega (
      arith,
      whole,
      bit_xor-shl 16 (a / 65536) 0 (a % 65536) b (omega arith) (omega arith),
      bit_xor-lt 16 (a % 65536) b (omega arith) (omega arith),
    )

bit_xor_swap : (a b c : ℕ) → bit_xor (bit_xor a b) c ≡ bit_xor (bit_xor a c) b
bit_xor_swap a b c =
    bit_xor_assoc a b c ∙ ap (bit_xor a) (bit_xor_comm b c) ∙ sym (bit_xor_assoc a c b)

-- A round on a register that holds a pending word `w` takes the top bit of `w` in.
table_round-bit_xor :
    (r w : ℕ)
    → r < 65536
    → w < 65536
    → table_round (bit_xor r w) ≡ bit_xor (shift_bit r (w / 32768)) (w * 2 % 65536)
unfolding table_round shift_bit
table_round-bit_xor r w p q =
    let (top, rest, small) = bit_xor_split r w p q in
    elim (Bool-cases ((r / 32768 + w / 32768) % 2 == 1)) [
      | inl one ↦
          let test : (bit_xor r w / 32768 % 2 == 1) ≡ true = rw top one in
          rw (test, one, u16-bit_xor (bit_xor r w * 2) 0x1021 (omega arith), rest)
            (bit_xor_swap (r * 2 % 65536) (w * 2 % 65536) 0x1021)
      | inr zero' ↦
          let test : (bit_xor r w / 32768 % 2 == 1) ≡ false = rw top zero' in rw (test, zero', rest)
    ]

-- The bits that `n` rounds take from the top of a pending word, and what is left of it.
abbrev top_bits : ℕ → ℕ → List ℕ
top_bits zero w = []
top_bits (suc n) w = (w / 32768) ∷ top_bits n (w * 2 % 65536)

abbrev left_over : ℕ → ℕ → ℕ
left_over zero w = w
left_over (suc n) w = left_over n (w * 2 % 65536)

table_rounds-bit_xor :
    (n r w : ℕ)
    → r < 65536
    → w < 65536
    → table_rounds n (bit_xor r w) ≡ bit_xor (shift_bits r (top_bits n w)) (left_over n w)
unfolding table_rounds shift_bits
table_rounds-bit_xor zero r w p q = refl
table_rounds-bit_xor (suc n) r w p q =
    ap (table_rounds n) (table_round-bit_xor r w p q)
    ∙ table_rounds-bit_xor n (shift_bit r (w / 32768)) (w * 2 % 65536) (shift_bit-lt r (w / 32768))
        (omega arith)

top_bits_byte : (b : ℕ) → b < 256 → top_bits 8 (b * 256) ≡ bits_of b
top_bits_byte b h = ap₂ ◌∷◌ (omega arith) (
    ap₂ ◌∷◌ (omega arith) (
      ap₂ ◌∷◌ (omega arith) (
        ap₂ ◌∷◌ (omega arith) (
          ap₂ ◌∷◌ (omega arith)
            (ap₂ ◌∷◌ (omega arith) (ap₂ ◌∷◌ (omega arith) (ap₂ ◌∷◌ (omega arith) refl)))))))

top_bits_low : (lo : ℕ) → lo < 256 → top_bits 8 lo ≡ top_bits 8 0
top_bits_low lo h = ap₂ ◌∷◌ (omega arith) (
    ap₂ ◌∷◌ (omega arith) (
      ap₂ ◌∷◌ (omega arith) (
        ap₂ ◌∷◌ (omega arith) (
          ap₂ ◌∷◌ (omega arith)
            (ap₂ ◌∷◌ (omega arith) (ap₂ ◌∷◌ (omega arith) (ap₂ ◌∷◌ (omega arith) refl)))))))

-- Eight rounds on a register that a byte was added to take the byte in, bit by bit.
rounds_byte :
    (r b : ℕ)
    → r < 65536
    → b < 256
    → table_rounds 8 (bit_xor r (b * 256)) ≡ shift_bits r (bits_of b)
rounds_byte r b p q =
    let none_left : left_over 8 (b * 256) ≡ 0 = omega arith in
    table_rounds-bit_xor 8 r (b * 256) p (omega arith)
    ∙ ap₂ bit_xor (ap (shift_bits r) (top_bits_byte b q)) none_left
    ∙ bit_xor-zero _

-- Eight rounds move the low byte up, and add what they make of the rest.
rounds_low :
    (r lo : ℕ)
    → r < 65536
    → lo < 256
    → table_rounds 8 (bit_xor r lo) ≡ bit_xor (table_rounds 8 r) (lo * 256)
rounds_low r lo p q =
    let moved : left_over 8 lo ≡ lo * 256 = omega arith in
    let plain : table_rounds 8 r ≡ shift_bits r (top_bits 8 0) =
      ap (table_rounds 8) (sym (bit_xor-zero r))
      ∙ table_rounds-bit_xor 8 r 0 p (omega arith)
      ∙ bit_xor-zero _ in
    table_rounds-bit_xor 8 r lo p (omega arith)
    ∙ ap₂ bit_xor (ap (shift_bits r) (top_bits_low lo q) ∙ sym plain) moved

get_or-fill_table : (left j i : ℕ) → i < left → get_or (fill_table left j) i 0 ≡ table_entry (j + i)
unfolding fill_table
get_or-fill_table zero j i h = absurd (omega arith)
get_or-fill_table (suc left) j zero h = ap table_entry (omega arith)
get_or-fill_table (suc left) j (suc i) h =
    get_or-fill_table left (j + 1) i (omega arith) ∙ ap table_entry (omega arith)

table_rounds-lt : (n c : ℕ) → c < 65536 → table_rounds n c < 65536
unfolding table_rounds table_round
table_rounds-lt zero c h = h
table_rounds-lt (suc n) c h = table_rounds-lt n (table_round c) (ground arith)

make_crc_table_lem : (i : ℕ) → i < 256 → get_or make_crc_table i 0 ≡ table_rounds 8 (i * 256)
unfolding make_crc_table table_entry
make_crc_table_lem i h = get_or-fill_table 256 0 i h ∙ ap (table_rounds 8) (omega arith)

-- A byte is added to the high byte of the register.
add_byte : (crc b : ℕ) → bit_xor crc (b * 256) ≡ bit_xor (bit_xor (crc / 256) b * 256) (crc % 256)
add_byte crc b =
    let hi = crc / 256 in
    let lo = crc % 256 in
    let left : bit_xor crc (b * 256) ≡ bit_xor (shl 8 hi + lo) (shl 8 b + 0) =
      ap₂ bit_xor (omega arith) (omega arith) in
    let right : bit_xor (bit_xor hi b * 256) lo
        ≡ bit_xor (shl 8 (bit_xor hi b) + 0) (shl 8 0 + lo) =
      ap₂ bit_xor (omega arith) (omega arith) in
    omega (
      arith,
      left,
      right,
      bit_xor-shl 8 hi b lo 0 (omega arith) (omega arith),
      bit_xor-shl 8 (bit_xor hi b) 0 0 lo (omega arith) (omega arith),
      bit_xor-zero (bit_xor hi b),
      bit_xor-zero lo,
      bit_xor_comm 0 lo,
    )

-- A round of the loop takes one byte in, bit by bit.
crc_step_lem : (crc b : ℕ) → crc < 65536 → b < 256 → crc_step crc b ≡ shift_bits crc (bits_of b)
unfolding crc_step
crc_step_lem crc b p q =
    let i = bit_xor (crc / 256) b in
    let small : i < 256 = bit_xor-lt 8 (crc / 256) b (omega arith) (omega arith) in
    let entry = make_crc_table_lem i small in
    let entry-lt : get_or make_crc_table i 0 < 65536 =
      rw entry (table_rounds-lt 8 (i * 256) (omega arith)) in
    let low : crc * 256 % 65536 ≡ crc % 256 * 256 = omega arith in
    u16-bit_xor (crc * 256) (get_or make_crc_table i 0) entry-lt
    ∙ ap₂ bit_xor low entry
    ∙ bit_xor_comm (crc % 256 * 256) (table_rounds 8 (i * 256))
    ∙ sym (rounds_low (i * 256) (crc % 256) (omega arith) (omega arith))
    ∙ ap (table_rounds 8) (sym (add_byte crc b))
    ∙ rounds_byte crc b p q

shift_bits-lt : (reg : ℕ) (bits : List ℕ) → reg < 65536 → shift_bits reg bits < 65536
unfolding shift_bits
shift_bits-lt reg [] h = h
shift_bits-lt reg (b ∷ bits) h = shift_bits-lt (shift_bit reg b) bits (shift_bit-lt reg b)

-- From any register value, the table-driven loop computes what the serial register computes.
pub crc_from-serial_crc :
    (crc : ℕ) (bytes : Bytes)
    → crc < 65536
    → AllBytes bytes
    → (crc_from crc bytes ≡ serial_crc crc bytes) × (crc_from crc bytes < 65536)
unfolding crc_from serial_crc
crc_from-serial_crc crc [] p h = (refl, p)
crc_from-serial_crc crc (b ∷ bytes) p h =
    let e = crc_step_lem crc b p h.0 in
    let small : crc_step crc b < 65536 = rw e (shift_bits-lt crc (bits_of b) p) in
    let r = crc_from-serial_crc (crc_step crc b) bytes small h.1 in
    (r.0 ∙ ap (λ c. serial_crc c bytes) e, r.1)

-- On any bytes the table-driven checksum is that of the serial register, started at 0 and fed with
-- the bits of each byte from the highest to the lowest, and fits 16 bits.
pub crc_ccitt_xmodem_serial :
    (bytes : Bytes)
    → AllBytes bytes
    → (crc_ccitt_xmodem bytes ≡ serial_crc 0 bytes) × (crc_ccitt_xmodem bytes < 65536)
unfolding crc_ccitt_xmodem
crc_ccitt_xmodem_serial bytes h = crc_from-serial_crc 0 bytes (omega arith) h
