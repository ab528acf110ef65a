-- ===== src/Recorder/Tests.antt =====
-- The theorems about the recorder at small inputs.
use mathlib.Core.List.{flatten}
use asterx_driver.Base.{◌%◌, ◌^◌, List, [], ◌∷◌, ◌++◌, ◌≡◌, refl, length, arith, Bytes, take}
use asterx_driver.Sbf.Crc.{
  crc_ccitt_xmodem, crc_from, crc_step, make_crc_table, fill_table, table_entry, table_rounds,
  table_round,
}
use asterx_driver.Sbf.Wire.{Frame, whole, parse_frame}
use asterx_driver.Sbf.Decoder.{Decodes}
use asterx_driver.Recorder.{Recorder, ok, new_recorder}
use asterx_driver.Recorder.Format.{wire, WellFormed, parse_frame-wire, parse_frame-WellFormed}
use asterx_driver.Recorder.Wrote.{contents, wires, total_len}
use asterx_driver.Recorder.Session.{record_all, Mirrors, record_all-contents}
use asterx_driver.Recorder.Example.{
  granting, granting-Reliable, small_files, the_frame, frame_bytes,
}

the_frame-WellFormed : WellFormed the_frame
unfolding crc_ccitt_xmodem crc_from crc_step make_crc_table fill_table table_entry table_rounds
    table_round
the_frame-WellFormed = record {
  crc_fits = omega arith;
  id_fits = omega arith;
  length_counts = refl;
  length_valid = refl;
  checked = refl;
}

parse_frame-wire_example : parse_frame (wire the_frame ++ 0x24 ∷ []) ≡ whole the_frame
parse_frame-wire_example = parse_frame-wire the_frame (0x24 ∷ []) the_frame-WellFormed

frame_bytes_read : parse_frame frame_bytes ≡ whole the_frame
unfolding parse_frame crc_ccitt_xmodem crc_from crc_step make_crc_table fill_table table_entry
    table_rounds table_round
frame_bytes_read = refl

parse_frame-WellFormed_example : (wire the_frame ≡ take 8 frame_bytes) × WellFormed the_frame
parse_frame-WellFormed_example =
    parse_frame-WellFormed frame_bytes the_frame (omega arith) frame_bytes_read

record_all-contents_example :
    (r : Recorder) × (frames : List Frame) × (rest : Bytes) × (record_all granting
        (frame_bytes ∷ frame_bytes ∷ [])
        (new_recorder small_files)
      ≡ ok tt r)
    × Decodes (flatten (frame_bytes ∷ frame_bytes ∷ [])) frames rest
    × (contents r.disk ≡ wires frames)
    × (r.stats.bytes_written ≡ total_len frames % 2 ^ 64)
    × (r.stats.frames_written ≡ length frames % 2 ^ 64)
    × Mirrors r
record_all-contents_example =
    record_all-contents granting granting-Reliable small_files (frame_bytes ∷ frame_bytes ∷ [])
