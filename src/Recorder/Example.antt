-- ===== src/Recorder/Example.antt =====
-- A system and a frame for a recorder.
use asterx_driver.Base.{true, [], ◌∷◌, ◌++◌, refl, arith, Bytes}
use asterx_driver.Sbf.Wire.{Frame}
use asterx_driver.Recorder.{Os, Config}
use asterx_driver.Recorder.Wrote.{Reliable}

-- A system that grants everything; its clock goes up by one at each reading.
abbrev pub granting : Os
granting = record {
  steady_now = λ call. call;
  utc_timestamp_now = λ call. b'T' ∷ [];
  create_directories = λ call. true;
  fopen = λ call. true;
  fwrite = λ call size. size;
  join_path = λ dir name. dir ++ (b'/' ∷ name);
  fwrite-le = λ call size. omega arith;
}

pub granting-Reliable : Reliable granting
granting-Reliable = record { opens = λ call. refl; writes = λ call size. refl }

abbrev pub small_files : Config
small_files = record {
  output_dir = b'r' ∷ [];
  file_prefix = b'a' ∷ [];
  rotate_bytes = 8;
  rotate_interval = 3600;
}

abbrev pub the_frame : Frame
the_frame = record { crc = 0x917D; raw_id = 0x0201; len = 8; body = [] }

abbrev pub frame_bytes : Bytes
frame_bytes = 0x24 ∷ 0x40 ∷ 0x7D ∷ 0x91 ∷ 1 ∷ 2 ∷ 8 ∷ 0 ∷ []
