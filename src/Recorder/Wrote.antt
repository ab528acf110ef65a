-- ===== src/Recorder/Wrote.antt =====
-- The bytes on the disk, and what it means that a recorder wrote frames.
use mathlib.Core.List.{append_assoc}
use mathlib.Core.Path.{subst}
use asterx_driver.Base.{
  ℕ, ◌+◌, ◌%◌, ◌^◌, ◌<◌, true, List, [], ◌∷◌, ◌++◌, ◌≡◌, refl, sym, ap, ◌∙◌, arith, length,
  length-append, Bytes,
}
use asterx_driver.Sbf.Wire.{Frame}
use asterx_driver.Recorder.{Os, File, Recorder, append_newest}
use asterx_driver.Recorder.Format.{wire}

-- Files open, and all bytes are taken.
pub record Reliable (os : Os) : Type 0 where
  pub opens : (call : ℕ) → os.fopen call ≡ true
  pub writes : (call size : ℕ) → os.fwrite call size ≡ size

-- The bytes of all files, in the order in which they were written.
abbrev pub contents : List File → Bytes
contents [] = []
contents (file ∷ files) = contents files ++ file.content

abbrev pub wires : List Frame → Bytes
wires [] = []
wires (f ∷ fs) = wire f ++ wires fs

abbrev pub total_len : List Frame → ℕ
total_len [] = 0
total_len (f ∷ fs) = f.len + total_len fs

abbrev pub CountersFit : Recorder → Type 0
CountersFit r = (r.stats.bytes_written < 2 ^ 64) × (r.stats.frames_written < 2 ^ 64)

-- The newest file is open.
pub record Open (r : Recorder) : Type 0 where
  pub fits : CountersFit r
  pub open_flag : r.is_open ≡ true
  pub file : File
  pub files : List File
  pub newest : r.disk ≡ file ∷ files

pub wires-append : (fs gs : List Frame) → wires (fs ++ gs) ≡ wires fs ++ wires gs
wires-append [] gs = refl
wires-append (f ∷ fs) gs =
    ap (λ d. wire f ++ d) (wires-append fs gs) ∙ sym (append_assoc (wire f) (wires fs) (wires gs))

pub total_len-append : (fs gs : List Frame) → total_len (fs ++ gs) ≡ total_len fs + total_len gs
total_len-append [] gs = omega arith
total_len-append (f ∷ fs) gs = omega (arith, total_len-append fs gs)

-- The drop counters, and what they were last compared with.
abbrev pub drops : Recorder → ℕ × ℕ × ℕ × ℕ × ℕ × ℕ
drops r = (
  r.prev_crc_failed, r.prev_length_invalid, r.prev_resyncs, r.stats.crc_failed,
  r.stats.length_invalid, r.stats.resyncs,
)

-- `r'` is `r` after the frames `fs` were written.
pub record Wrote (r : Recorder) (fs : List Frame) (r' : Recorder) : Type 0 where
  pub still_open : Open r'
  pub same_sync : r'.sync ≡ r.sync
  pub same_drops : drops r' ≡ drops r
  pub written : contents r'.disk ≡ contents r.disk ++ wires fs
  pub bytes : r'.stats.bytes_written ≡ (r.stats.bytes_written + total_len fs) % 2 ^ 64
  pub frames : r'.stats.frames_written ≡ (r.stats.frames_written + length fs) % 2 ^ 64

pub contents-append_newest :
    (r : Recorder) (o : Open r) (bytes : Bytes)
    → contents (append_newest r.disk bytes) ≡ contents r.disk ++ bytes
contents-append_newest r o bytes =
    subst (λ d. contents (append_newest d bytes) ≡ contents d ++ bytes) (sym o.newest)
      (sym (append_assoc (contents o.files) o.file.content bytes))

pub Wrote-trans :
    {r s t : Recorder} (fs gs : List Frame) → Wrote r fs s → Wrote s gs t → Wrote r (fs ++ gs) t
Wrote-trans {r} fs gs a b = record {
  still_open = b.still_open;
  same_sync = b.same_sync ∙ a.same_sync;
  same_drops = b.same_drops ∙ a.same_drops;
  written =
      b.written
      ∙ ap (λ d. d ++ wires gs) a.written
      ∙ append_assoc (contents r.disk) (wires fs) (wires gs)
      ∙ ap (λ d. contents r.disk ++ d) (sym (wires-append fs gs));
  bytes = omega (arith, a.bytes, b.bytes, total_len-append fs gs);
  frames = omega (arith, a.frames, b.frames, length-append fs gs);
}
