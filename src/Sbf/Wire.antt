-- ===== src/Sbf/Wire.antt =====
-- The SBF frame as it stands on the wire: `$@`, then checksum, identifier and length as 16-bit
-- little-endian numbers, then the body. The length counts the whole frame.
use asterx_driver.Base.{
  ℕ, ◌+◌, ◌-◌, ◌%◌, Bool, ◌&&◌, [], ◌∷◌, leb, ltb, ◌==◌, if◌then◌else◌, length, take, Bytes, le16,
}
use asterx_driver.Sbf.Crc.{crc_ccitt_xmodem}

-- `Frame`: the fields that the accessors of the same names return.
pub record Frame : Type 0 where
  pub crc : ℕ
  pub raw_id : ℕ
  pub len : ℕ
  pub body : Bytes

abbrev pub max_sbf_length : ℕ
max_sbf_length = 8188

abbrev pub sync1 : ℕ
sync1 = 0x24

abbrev pub sync2 : ℕ
sync2 = 0x40

abbrev pub valid_length : ℕ → Bool
valid_length n = n % 4 == 0 && (leb 8 n && leb n max_sbf_length)

-- What the front of a byte sequence is: too short to tell, no frame, or a whole frame.
pub data Verdict : Type 0 where
  more junk : Verdict
  whole : Frame → Verdict

-- The fields behind `$@`.
unfoldable pub parse_fields : Bytes → Verdict
parse_fields (c0 ∷ c1 ∷ i0 ∷ i1 ∷ l0 ∷ l1 ∷ rest) =
    let n = le16 l0 l1 in
    let body = take (n - 8) rest in
    if valid_length n
    then if ltb (length rest + 8) n
      then more
      else if crc_ccitt_xmodem (i0 ∷ i1 ∷ l0 ∷ l1 ∷ body) == le16 c0 c1
      then whole (record { crc = le16 c0 c1; raw_id = le16 i0 i1; len = n; body = body })
      else junk
    else junk
parse_fields _ = more

pub parse_sync2 : Bytes → Verdict
unfolding parse_fields
parse_sync2 [] = more
parse_sync2 (c ∷ u) = if c == sync2 then parse_fields u else junk

unfoldable pub parse_frame : Bytes → Verdict
unfolding parse_sync2
parse_frame [] = more
parse_frame (b ∷ u) = if b == sync1 then parse_sync2 u else junk
