-- ===== src/Recorder/Format.antt =====
-- The bytes that `write_frame_` writes for a frame, against the format that the synchronizer reads.
use mathlib.Core.Path.{subst}
use asterx_driver.Base.{
  ℕ, suc, ◌+◌, ◌-◌, ◌/◌, ◌%◌, ◌≤◌, ◌<◌, true, false, [], ◌∷◌, ◌++◌, ◌≡◌, sym, ap, arith, ltb, ◌==◌,
  length, length-append, take, take-length, length-take, Bytes, le16, ==_iff,
}
use asterx_driver.Sbf.Crc.{crc_ccitt_xmodem}
use asterx_driver.Sbf.Crc.Reference.{AllBytes}
use asterx_driver.Sbf.Wire.{Frame, whole, sync1, sync2, valid_length, parse_fields, parse_frame}
use asterx_driver.Recorder.{header}

abbrev pub wire : Frame → Bytes
wire f = header f ++ f.body

-- What the checksum of a frame covers.
abbrev pub covered : Frame → Bytes
covered f = (f.raw_id % 256) ∷ (f.raw_id / 256 % 256) ∷ (f.len % 256) ∷ (f.len / 256 % 256) ∷ f.body

pub record WellFormed (f : Frame) : Type 0 where
  pub crc_fits : f.crc < 65536
  pub id_fits : f.raw_id < 65536
  pub length_counts : f.len ≡ 8 + length f.body
  pub length_valid : valid_length f.len ≡ true
  pub checked : crc_ccitt_xmodem (covered f) ≡ f.crc

le16-split : (n : ℕ) → n < 65536 → le16 (n % 256) (n / 256 % 256) ≡ n
le16-split n h = omega arith

-- Written bytes, and whatever bytes behind them, are read as the frame.
pub parse_frame-wire :
    (f : Frame) (rest : Bytes) → WellFormed f → parse_frame (wire f ++ rest) ≡ whole f
unfolding parse_frame header
parse_frame-wire f rest w =
    let n : le16 (f.len % 256) (f.len / 256 % 256) ≡ f.len = ground (arith, w.length_valid) in
    let body : take (f.len - 8) (f.body ++ rest) ≡ f.body =
      let size : f.len - 8 ≡ length f.body = omega (arith, w.length_counts) in
      rw size (take-length f.body rest) in
    let fits : ltb (length (f.body ++ rest) + 8) f.len ≡ false =
      ground (arith, length-append f.body rest, w.length_counts) in
    let c = le16-split f.crc w.crc_fits in
    let checks : (crc_ccitt_xmodem (covered f) == f.crc) ≡ true = (==_iff _ _).1 w.checked in
    rw (n, w.length_valid, fits, body, c, checks, le16-split f.raw_id w.id_fits)

module _ (c0 c1 i0 i1 l0 l1 : ℕ) (rest : Bytes) where
  abbrev read_frame : Frame
  read_frame = record {
    crc = le16 c0 c1;
    raw_id = le16 i0 i1;
    len = le16 l0 l1;
    body = take (le16 l0 l1 - 8) rest;
  }

  parse_fields_inv :
      (f : Frame)
      → parse_fields (c0 ∷ c1 ∷ i0 ∷ i1 ∷ l0 ∷ l1 ∷ rest) ≡ whole f
      → (f ≡ read_frame)
        × (valid_length (le16 l0 l1) ≡ true)
        × (le16 l0 l1 ≤ length rest + 8)
        × (crc_ccitt_xmodem (i0 ∷ i1 ∷ l0 ∷ l1 ∷ take (le16 l0 l1 - 8) rest) ≡ le16 c0 c1)
  unfolding parse_fields
  parse_fields_inv f e = ground arith

  module _ (h : AllBytes (c0 ∷ c1 ∷ i0 ∷ i1 ∷ l0 ∷ l1 ∷ []))
      (valid : valid_length (le16 l0 l1) ≡ true) where
    low : (a b : ℕ) → a < 256 → le16 a b % 256 ≡ a
    low a b p = omega arith

    high : (a b : ℕ) → a < 256 → b < 256 → le16 a b / 256 % 256 ≡ b
    high a b p q = omega arith

    wire-read_frame :
        wire read_frame ≡ take (le16 l0 l1) (sync1 ∷ sync2 ∷ c0 ∷ c1 ∷ i0 ∷ i1 ∷ l0 ∷ l1 ∷ rest)
    unfolding header
    wire-read_frame =
        let n : le16 l0 l1 ≡ suc (suc (suc (suc (suc (suc (suc (suc (le16 l0 l1 - 8)))))))) =
          ground arith in
        rw
          (
            low c0 c1 (omega arith),
            high c0 c1 (omega arith) (omega arith),
            low i0 i1 (omega arith),
            high i0 i1 (omega arith) (omega arith),
            low l0 l1 (omega arith),
            high l0 l1 (omega arith) (omega arith),
          )
          (ap (λ k. take k (sync1 ∷ sync2 ∷ c0 ∷ c1 ∷ i0 ∷ i1 ∷ l0 ∷ l1 ∷ rest)) (sym n))

    read_frame-WellFormed :
        le16 l0 l1 ≤ length rest + 8
        → crc_ccitt_xmodem (i0 ∷ i1 ∷ l0 ∷ l1 ∷ take (le16 l0 l1 - 8) rest) ≡ le16 c0 c1
        → WellFormed read_frame
    read_frame-WellFormed fits crc = record {
      crc_fits = omega arith;
      id_fits = omega arith;
      length_counts = ground (arith, length-take (le16 l0 l1 - 8) rest);
      length_valid = valid;
      checked =
          rw
            (
              low i0 i1 (omega arith),
              high i0 i1 (omega arith) (omega arith),
              low l0 l1 (omega arith),
              high l0 l1 (omega arith) (omega arith),
            )
            crc;
    }

parse_fields-wire :
    (u : Bytes) (f : Frame)
    → AllBytes u
    → parse_fields u ≡ whole f
    → (wire f ≡ take f.len (sync1 ∷ sync2 ∷ u)) × WellFormed f
unfolding parse_fields
parse_fields-wire (c0 ∷ c1 ∷ i0 ∷ i1 ∷ l0 ∷ l1 ∷ rest) f bytes e =
    let (same, valid, fits, crc) = parse_fields_inv c0 c1 i0 i1 l0 l1 rest f e in
    let h : AllBytes (c0 ∷ c1 ∷ i0 ∷ i1 ∷ l0 ∷ l1 ∷ []) = omega arith in
    subst
      (λ g.
        (wire g ≡ take g.len (sync1 ∷ sync2 ∷ c0 ∷ c1 ∷ i0 ∷ i1 ∷ l0 ∷ l1 ∷ rest)) × WellFormed g)
      (sym same)
      (
        wire-read_frame c0 c1 i0 i1 l0 l1 rest h valid,
        read_frame-WellFormed c0 c1 i0 i1 l0 l1 rest h valid fits crc,
      )
parse_fields-wire _ f bytes e = cc

-- A frame that is read from bytes is well-formed, and is written as the very bytes it was read from.
pub parse_frame-WellFormed :
    (u : Bytes) (f : Frame)
    → AllBytes u
    → parse_frame u ≡ whole f
    → (wire f ≡ take f.len u) × WellFormed f
unfolding parse_frame
parse_frame-WellFormed [] f bytes e = cc
parse_frame-WellFormed (b ∷ []) f bytes e = ground arith
parse_frame-WellFormed (b ∷ c ∷ u) f bytes e =
    let fields : parse_fields u ≡ whole f = ground arith in
    let first : b ≡ sync1 = ground arith in
    let second : c ≡ sync2 = ground arith in
    rw (first, second) (parse_fields-wire u f bytes.1.1 fields)
