-- ===== src/Sbf/FrameSync/Fields.antt =====
-- Reads of a candidate's fields and bytes, by index into the buffer, against the bytes there.
use asterx_driver.Base.{
  ℕ, zero, suc, ◌+◌, ◌-◌, ◌≤◌, ◌<◌, true, false, ◌∷◌, ◌≡◌, refl, sym, ap, ◌∙◌, arith, drop, take,
  length, get_elem?, get_elem?-drop, drop-cons, drop-drop, length-drop, Bytes, le16, some, ltb,
  ◌==◌,
}
use asterx_driver.Sbf.Crc.{crc_ccitt_xmodem}
use asterx_driver.Sbf.Wire.{
  junk, more, whole, parse_frame, parse_fields, sync1, sync2, valid_length,
}
use asterx_driver.Sbf.FrameSync.{buf_u16le, copy_range, sub64}

module _ (buf : Bytes) (start : ℕ) {u : Bytes} (front : drop start buf ≡ u) where
  elem_at : (k : ℕ) → get_elem? buf (start + k) ≡ get_elem? u k
  elem_at k = get_elem?-drop start k (start + k) buf refl ∙ ap (λ t. get_elem? t k) front

  pub buf_u16le_lem :
      (k : ℕ) {lo hi : ℕ}
      → get_elem? u k ≡ some lo
      → get_elem? u (suc k) ≡ some hi
      → buf_u16le buf (start + k) ≡ some (le16 lo hi)
  unfolding buf_u16le
  buf_u16le_lem k l h =
      let next : start + k + 1 ≡ start + suc k = omega arith in
      rw (elem_at k, l, next, elem_at (suc k), h)

pub copy_range_lem :
    (d : Bytes) (off n : ℕ) → off + n ≤ length d → copy_range d off n ≡ some (take n (drop off d))
unfolding copy_range
copy_range_lem d off zero h = refl
copy_range_lem d off (suc n) h =
    let (b, split, at) = drop-cons off d (omega arith) in
    rw (at, copy_range_lem d (off + 1) n (omega arith), split)

-- Fewer than eight bytes of a candidate.
parse_fields_short : (u : Bytes) → length u < 6 → parse_fields u ≡ more
unfolding parse_fields
parse_fields_short (c0 ∷ c1 ∷ i0 ∷ i1 ∷ l0 ∷ l1 ∷ rest) h = absurd (omega arith)
parse_fields_short _ h = refl

pub parse_frame_short : (u : Bytes) → length u < 6 → parse_frame (sync1 ∷ sync2 ∷ u) ≡ more
unfolding parse_frame
parse_frame_short u h = parse_fields_short u h

module _ (c0 c1 i0 i1 l0 l1 : ℕ) (rest : Bytes) where
  abbrev candidate : Bytes
  candidate = sync1 ∷ sync2 ∷ c0 ∷ c1 ∷ i0 ∷ i1 ∷ l0 ∷ l1 ∷ rest

  abbrev covered : Bytes
  covered = i0 ∷ i1 ∷ l0 ∷ l1 ∷ take (le16 l0 l1 - 8) rest

  pub parse_frame_bad_length : valid_length (le16 l0 l1) ≡ false → parse_frame candidate ≡ junk
  unfolding parse_frame
  parse_frame_bad_length h = rw h

  pub parse_frame_incomplete :
      valid_length (le16 l0 l1) ≡ true → length rest + 8 < le16 l0 l1 → parse_frame candidate ≡ more
  unfolding parse_frame
  parse_frame_incomplete h lt =
      let short : ltb (length rest + 8) (le16 l0 l1) ≡ true = ground arith in rw (h, short)

  module _ (valid : valid_length (le16 l0 l1) ≡ true) (fits : le16 l0 l1 ≤ length rest + 8) where
    fits_test : ltb (length rest + 8) (le16 l0 l1) ≡ false
    fits_test = ground arith

    pub parse_frame_bad_crc :
        (crc_ccitt_xmodem covered == le16 c0 c1) ≡ false → parse_frame candidate ≡ junk
    unfolding parse_frame
    parse_frame_bad_crc h = rw (valid, fits_test, h)

    pub parse_frame_whole :
        (crc_ccitt_xmodem covered == le16 c0 c1) ≡ true
        → parse_frame candidate
          ≡ whole (record {
            crc = le16 c0 c1;
            raw_id = le16 i0 i1;
            len = le16 l0 l1;
            body = take (le16 l0 l1 - 8) rest;
          })
    unfolding parse_frame
    parse_frame_whole h = rw (valid, fits_test, h)

module _ (buf : Bytes) (start c0 c1 i0 i1 l0 l1 : ℕ) (rest : Bytes) where
  abbrev AtStart : Type 0
  AtStart = drop start buf ≡ candidate c0 c1 i0 i1 l0 l1 rest

  pub length-candidate : AtStart → start ≤ length buf → length buf ≡ start + 8 + length rest
  length-candidate front le =
      let len : length buf - start ≡ suc (suc (suc (suc (suc (suc (suc (suc (length rest)))))))) =
        sym (length-drop start buf) ∙ ap length front in
      omega arith

  module _ (front : AtStart) (le : start ≤ length buf) where
    -- What the checksum covers, and the body.
    pub copy_covered :
        8 ≤ le16 l0 l1
        → le16 l0 l1 < 65536
        → le16 l0 l1 ≤ length rest + 8
        → copy_range buf (start + 4) (sub64 (le16 l0 l1) 4) ≡ some (covered c0 c1 i0 i1 l0 l1 rest)
    copy_covered low high fits =
        let n : sub64 (le16 l0 l1) 4 ≡ suc (suc (suc (suc (le16 l0 l1 - 8)))) = omega arith in
        let len = length-candidate front le in
        rw (
          n,
          copy_range_lem buf (start + 4) (suc (suc (suc (suc (le16 l0 l1 - 8))))) (omega arith),
          drop-drop start 4 (start + 4) buf refl,
          front,
        )

    pub copy_body :
        8 ≤ le16 l0 l1
        → le16 l0 l1 < 65536
        → le16 l0 l1 ≤ length rest + 8
        → copy_range buf (start + 8) (sub64 (le16 l0 l1) 8) ≡ some (take (le16 l0 l1 - 8) rest)
    copy_body low high fits =
        let n : sub64 (le16 l0 l1) 8 ≡ le16 l0 l1 - 8 = omega arith in
        let len = length-candidate front le in
        rw (
          n,
          copy_range_lem buf (start + 8) (le16 l0 l1 - 8) (omega arith),
          drop-drop start 8 (start + 8) buf refl,
          front,
        )
