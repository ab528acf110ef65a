-- ===== src/Recorder.antt =====
-- src/sbf_recorder.hpp and sbf_recorder.cpp: `SbfRecorder`, from received bytes to rotating files.
-- The disk is the list of the files that the recorder has opened, the newest first; `fp_` is a
-- handle on the newest. Logging is left out. Clock readings are numbers of one unit, in which the
-- rotation interval is given too; an interval below zero acts as zero.
mod Tests
pub mod Example
pub mod Format
pub mod Wrote
pub mod Disk
pub mod Session
use asterx_driver.Base.{
  ℕ, suc, ◌+◌, ◌-◌, ◌/◌, ◌%◌, ◌^◌, ◌≤◌, Bool, true, false, ◌||◌, List, [], ◌∷◌, ◌++◌, Option, none,
  some, leb, ◌==◌, if◌then◌else◌, length, take, Bytes, u64, to_string,
}
use asterx_driver.Sbf.Wire.{Frame, sync1, sync2}
use asterx_driver.Sbf.FrameSync.{FrameSync, fresh, feed, bump, sub64}

-- The operating system and the file system, at the n-th call that is made of them.
pub record Os : Type 0 where
  pub steady_now : ℕ → ℕ
  pub utc_timestamp_now : ℕ → Bytes
  pub create_directories : ℕ → Bool
  pub fopen : ℕ → Bool
  pub fwrite : ℕ → ℕ → ℕ
  pub join_path : Bytes → Bytes → Bytes
  -- `fwrite` never writes more than it is given.
  pub fwrite-le : (call size : ℕ) → fwrite call size ≤ size

pub record Config : Type 0 where
  pub output_dir : Bytes
  pub file_prefix : Bytes
  pub rotate_bytes : ℕ
  pub rotate_interval : ℕ

pub record RecorderStats : Type 0 where
  pub bytes_written : ℕ
  pub frames_written : ℕ
  pub files_rotated : ℕ
  pub crc_failed : ℕ
  pub length_invalid : ℕ
  pub resyncs : ℕ

pub record File : Type 0 where
  pub path : Bytes
  pub content : Bytes

pub record Recorder : Type 0 where
  pub cfg : Config
  pub sync : FrameSync
  pub prev_resyncs : ℕ
  pub prev_crc_failed : ℕ
  pub prev_length_invalid : ℕ
  pub is_open : Bool
  pub current_path : Bytes
  pub current_size : ℕ
  pub file_start : ℕ
  pub seq : ℕ
  pub stats : RecorderStats
  pub disk : List File
  pub calls : ℕ

pub data Failure : Type 0 where
  no_directory cannot_open header_write body_write : Failure

-- A method ends with a value or an exception, and leaves a recorder; a fault is undefined behaviour.
pub data Outcome {ℓ} (A : Type ℓ) : Type ℓ where
  ok : A → Recorder → Outcome A
  thrown : Failure → Recorder → Outcome A
  fault : Outcome A

abbrev pub M : Type 0 → Type 0
M A = Recorder → Outcome A

-- An exception ends the method.
abbrev pub after : {A B : Type 0} → Outcome A → (A → M B) → Outcome B
after (ok a r) k = k a r
after (thrown e r) k = thrown e r
after fault k = fault

infixl 5 ◌>>=◌ ◌>>◌
abbrev pub ◌>>=◌ : {A B : Type 0} → M A → (A → M B) → M B
◌>>=◌ m k r = after (m r) k

abbrev pub ◌>>◌ : {B : Type 0} → M (Unit {0}) → M B → M B
m >> k = m >>= λ _. k

abbrev pub done : M (Unit {0})
done r = ok tt r

abbrev zero_stats : RecorderStats
zero_stats = record {
  bytes_written = 0;
  frames_written = 0;
  files_rotated = 0;
  crc_failed = 0;
  length_invalid = 0;
  resyncs = 0;
}

abbrev pub new_recorder : Config → Recorder
new_recorder cfg = record {
  cfg = cfg;
  sync = fresh;
  prev_resyncs = 0;
  prev_crc_failed = 0;
  prev_length_invalid = 0;
  is_open = false;
  current_path = [];
  current_size = 0;
  file_start = 0;
  seq = 0;
  stats = zero_stats;
  disk = [];
  calls = 0;
}

-- `close`: what was written is on the disk.
unfoldable pub close : Recorder → Recorder
close r = if r.is_open then record r { is_open = false; current_size = 0 } else r

-- The bytes of the header that `write_frame_` rebuilds.
pub header : Frame → Bytes
header f =
    sync1
    ∷ sync2
    ∷ (f.crc % 256)
    ∷ (f.crc / 256 % 256)
    ∷ (f.raw_id % 256)
    ∷ (f.raw_id / 256 % 256)
    ∷ (f.len % 256)
    ∷ (f.len / 256 % 256)
    ∷ []

-- Bytes go to the newest file.
abbrev pub append_newest : List File → Bytes → List File
append_newest [] bytes = []
append_newest (file ∷ files) bytes = record file { content = file.content ++ bytes } ∷ files

module _ (os : Os) where
  -- The constructor.
  pub create : Config → Outcome (Unit {0})
  create cfg =
      let r = new_recorder cfg in
      if os.create_directories r.calls
      then ok tt (record r { calls = suc r.calls })
      else thrown no_directory (record r { calls = suc r.calls })

  abbrev pub close_previous : Recorder → Recorder
  close_previous r =
      if r.is_open
      then record r {
        is_open = false;
        stats = record r.stats { files_rotated = bump r.stats.files_rotated };
      }
      else r

  abbrev pub file_name : Recorder → Bytes
  file_name r =
      r.cfg.file_prefix
      ++ (b'-'
          ∷ (os.utc_timestamp_now r.calls
              ++ (b'-' ∷ (to_string r.seq ++ (b'.' ∷ b's' ∷ b'b' ∷ b'f' ∷ [])))))

  abbrev pub open_next : Recorder → Outcome (Unit {0})
  open_next r =
      let path = os.join_path r.cfg.output_dir (file_name r) in
      if os.fopen r.calls
      then ok tt (record r {
        current_path = path;
        is_open = true;
        current_size = 0;
        file_start = os.steady_now r.calls;
        disk = record { path = path; content = [] } ∷ r.disk;
        calls = suc r.calls;
      })
      else thrown cannot_open (record r { current_path = path; calls = suc r.calls })

  pub open_new_file : M (Unit {0})
  open_new_file r = let q = close_previous r in open_next (record q { seq = q.seq + 1 })

  pub rotate_if_needed : M (Unit {0})
  rotate_if_needed r =
      let now = os.steady_now r.calls in
      let next = open_new_file (record r { calls = suc r.calls }) in
      if r.is_open
      then if leb r.cfg.rotate_bytes r.current_size
          || leb r.cfg.rotate_interval (now - r.file_start)
        then next
        else ok tt (record r { calls = suc r.calls })
      else ok tt r

  -- `fwrite(bytes, 1, size, fp_) != size` throws.
  pub write_bytes : Bytes → Failure → M (Unit {0})
  write_bytes bytes failure r =
      let n = os.fwrite r.calls (length bytes) in
      let r' = record r { disk = append_newest r.disk (take n bytes); calls = suc r.calls } in
      if n == length bytes then ok tt r' else thrown failure r'

  abbrev pub write_body : Bytes → M (Unit {0})
  write_body [] = done
  write_body (b ∷ bytes) = write_bytes (b ∷ bytes) body_write

  abbrev pub count_frame : Frame → M (Unit {0})
  count_frame f r = ok tt (record r {
    current_size = u64 (r.current_size + f.len);
    stats = record r.stats {
      bytes_written = u64 (r.stats.bytes_written + f.len);
      frames_written = bump r.stats.frames_written;
    };
  })

  pub write_frame : Frame → M (Unit {0})
  write_frame f = do write_bytes (header f) header_write; write_body f.body; count_frame f

  -- The drop counters of the synchronizer since the last call.
  abbrev pub count_drops : M (Unit {0})
  count_drops r =
      let fs = r.sync.stats in
      ok tt (record r {
        stats = record r.stats {
          crc_failed = u64 (r.stats.crc_failed + sub64 fs.crc_failed r.prev_crc_failed);
          length_invalid =
              u64 (r.stats.length_invalid + sub64 fs.length_invalid r.prev_length_invalid);
          resyncs = u64 (r.stats.resyncs + sub64 fs.resyncs r.prev_resyncs);
        };
        prev_resyncs = fs.resyncs;
        prev_crc_failed = fs.crc_failed;
        prev_length_invalid = fs.length_invalid;
      })

  pub ensure_open : M (Unit {0})
  ensure_open r = if r.is_open then ok tt r else open_new_file r

  abbrev pub deliver : Recorder → Option (FrameSync × List Frame) → Outcome (List Frame)
  deliver r none = fault
  deliver r (some (sync, out)) = ok out (record r { sync = sync })

  abbrev pub synchronize : Bytes → M (List Frame)
  synchronize bytes r = deliver r (feed r.sync bytes [])

  pub write_frames : List Frame → M (Unit {0})
  write_frames [] = done
  write_frames (f ∷ fs) = do write_frame f; rotate_if_needed; write_frames fs

  -- `SbfRecorder::feed`.
  pub record_bytes : Bytes → M (Unit {0})
  record_bytes bytes = do ensure_open; out ← synchronize bytes; count_drops; write_frames out
