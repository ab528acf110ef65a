-- ===== src/Sbf/Tests.antt =====
-- Runs on small inputs, and the theorems at them.
use mathlib.Core.List.{flatten}
use asterx_driver.Base.{
  ℕ, ◌%◌, ◌^◌, List, [], ◌∷◌, ◌++◌, ◌≡◌, ◌<◌, refl, Option, some, ◌>>=◌, length, arith, Bytes,
}
use asterx_driver.Sbf.Crc.{
  crc_ccitt_xmodem, crc_from, crc_step, make_crc_table, fill_table, table_entry, table_rounds,
  table_round,
}
use asterx_driver.Sbf.Crc.Reference.{serial_crc, crc_ccitt_xmodem_serial}
use asterx_driver.Sbf.Wire.{Frame}
use asterx_driver.Sbf.Decoder.{Decodes}
use asterx_driver.Sbf.FrameSync.{
  FrameSync, got_dollar, fresh, feed, feed_all, reset, scan, pass_in, at_idle, at_got_dollar,
  at_reading_header, at_reading_body, complete_frame, skip_junk, buf_u16le, copy_range,
}
use asterx_driver.Sbf.FrameSync.Stream.{feed_all-Decodes, feed_all_chunking, feed_all-reset}
use asterx_driver.Sbf.FrameSync.Counters.{Balanced, feed_all-Balanced}

-- A frame with no body, and one whose checksum is wrong.
abbrev short_frame : Bytes
short_frame = 0x24 ∷ 0x40 ∷ 0x7D ∷ 0x91 ∷ 1 ∷ 2 ∷ 8 ∷ 0 ∷ []

abbrev bad_frame : Bytes
bad_frame = 0x24 ∷ 0x40 ∷ 0 ∷ 0 ∷ 1 ∷ 2 ∷ 8 ∷ 0 ∷ []

-- Noise, a doubled `$`, a frame cut in two, a bad frame.
abbrev chunks : List Bytes
chunks = (7 ∷ 0x24 ∷ 0x24 ∷ 0x40 ∷ 0x7D ∷ []) ∷ (0x91 ∷ 1 ∷ 2 ∷ 8 ∷ 0 ∷ bad_frame ++ 0x24 ∷ []) ∷ []

abbrev after_chunks : FrameSync
after_chunks = record {
  buf = 0x24 ∷ [];
  state = got_dollar;
  stats = record {
    bytes_consumed = 19;
    frames_emitted = 1;
    crc_failed = 1;
    length_invalid = 0;
    resyncs = 1;
  };
  frame_drain = 0;
}

abbrev the_frame : Frame
the_frame = record { crc = 0x917D; raw_id = 0x0201; len = 8; body = [] }

run_chunks : feed_all fresh chunks [] ≡ some (after_chunks, the_frame ∷ [])
unfolding feed_all feed scan pass_in at_idle at_got_dollar at_reading_header at_reading_body
    complete_frame skip_junk buf_u16le copy_range crc_ccitt_xmodem crc_from crc_step make_crc_table
    fill_table table_entry table_rounds table_round
run_chunks = refl

-- The failure counters depend on the chunks: a bad frame behind the last good one is counted again
-- by the next call when its bytes stay in the buffer until then.
abbrev crc_failures : Option (FrameSync × List Frame) → Option ℕ
crc_failures o = do r ← o; some r.0.stats.crc_failed

counted_once : crc_failures (feed_all fresh ((short_frame ++ bad_frame) ∷ []) []) ≡ some 1
unfolding feed_all feed scan pass_in at_idle at_got_dollar at_reading_header at_reading_body
    complete_frame skip_junk buf_u16le copy_range crc_ccitt_xmodem crc_from crc_step make_crc_table
    fill_table table_entry table_rounds table_round
counted_once = refl

counted_twice : crc_failures (feed_all fresh ((short_frame ++ bad_frame) ∷ [] ∷ []) []) ≡ some 2
unfolding feed_all feed scan pass_in at_idle at_got_dollar at_reading_header at_reading_body
    complete_frame skip_junk buf_u16le copy_range crc_ccitt_xmodem crc_from crc_step make_crc_table
    fill_table table_entry table_rounds table_round
counted_twice = refl

feed_all-Decodes_example :
    (f : FrameSync) × (frames : List Frame) × (rest : Bytes) × (feed_all fresh chunks []
      ≡ some (f, frames))
    × Decodes (flatten chunks) frames rest
    × (f.stats.frames_emitted ≡ length frames % 2 ^ 64)
feed_all-Decodes_example = feed_all-Decodes chunks

feed_all_chunking_example :
    (f g : FrameSync) × (frames : List Frame) × (feed_all fresh chunks [] ≡ some (f, frames))
    × (feed_all fresh (flatten chunks ∷ []) [] ≡ some (g, frames))
unfolding flatten
feed_all_chunking_example = feed_all_chunking chunks (flatten chunks ∷ []) refl

feed_all-reset_example :
    (f g : FrameSync) × (before after : List Frame) × (rest : Bytes) × (feed_all fresh chunks []
      ≡ some (f, before))
    × (feed_all (reset f) (short_frame ∷ []) [] ≡ some (g, after))
    × Decodes (flatten (short_frame ∷ [])) after rest
feed_all-reset_example = feed_all-reset chunks (short_frame ∷ [])

feed_all-Balanced_example : Balanced (length (flatten chunks)) after_chunks.stats
feed_all-Balanced_example = feed_all-Balanced chunks after_chunks (the_frame ∷ []) run_chunks

crc_ccitt_xmodem_serial_example :
    (crc_ccitt_xmodem (1 ∷ 2 ∷ 8 ∷ 0 ∷ []) ≡ serial_crc 0 (1 ∷ 2 ∷ 8 ∷ 0 ∷ []))
    × (crc_ccitt_xmodem (1 ∷ 2 ∷ 8 ∷ 0 ∷ []) < 65536)
crc_ccitt_xmodem_serial_example = crc_ccitt_xmodem_serial (1 ∷ 2 ∷ 8 ∷ 0 ∷ []) (omega arith)
