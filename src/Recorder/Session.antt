-- ===== src/Recorder/Session.antt =====
-- `SbfRecorder::feed` over a whole session, from the bytes received to the bytes on the disk.
use mathlib.Core.List.{append-nil, append_assoc, flatten}
use mathlib.Core.Path.{subst}
use native.Mathlib.Nat.{add-zero}
use asterx_driver.Base.{
  ℕ, ◌+◌, ◌%◌, ◌^◌, true, List, [], ◌∷◌, ◌++◌, ◌≡◌, refl, sym, ap, ◌∙◌, arith, length,
  length-append, Bytes, some, choice,
}
use asterx_driver.Sbf.Wire.{Frame}
use asterx_driver.Sbf.Decoder.{stay, Decodes}
use asterx_driver.Sbf.Decoder.Laws.{Decodes-append}
use asterx_driver.Sbf.FrameSync.{FrameSync, feed}
use asterx_driver.Sbf.FrameSync.Ready.{Ready}
use asterx_driver.Sbf.FrameSync.Feed.{feed_lem}
use asterx_driver.Sbf.FrameSync.Stream.{fresh-Ready}
use asterx_driver.Sbf.FrameSync.Counters.{Balanced, feed-Balanced}
use asterx_driver.Recorder.{
  Os, Config, Recorder, Outcome, M, ok, thrown, fault, after, ◌>>=◌, ◌>>◌, done, new_recorder,
  deliver, synchronize, count_drops, write_frames, record_bytes, create,
}
use asterx_driver.Recorder.Wrote.{
  Reliable, drops, Open, CountersFit, contents, wires, wires-append, total_len, total_len-append,
}
use asterx_driver.Recorder.Disk.{ensure_open-Writes, write_frames-Writes}

-- One call of `feed` for each chunk.
pub record_all : Os → List Bytes → M (Unit {0})
record_all os [] = done
record_all os (chunk ∷ chunks) = do record_bytes os chunk; record_all os chunks

-- What the drop counters of a recorder should be: those of the synchronizer.
abbrev pub seen : FrameSync → ℕ × ℕ × ℕ × ℕ × ℕ × ℕ
seen f =
    let t = f.stats in
    (t.crc_failed, t.length_invalid, t.resyncs, t.crc_failed, t.length_invalid, t.resyncs)

abbrev pub Mirrors : Recorder → Type 0
Mirrors r = drops r ≡ seen r.sync

-- Between two calls of `feed`; `fed` bytes have come in, and the decoder would keep `rest` of them.
pub record Live (r : Recorder) (fed : ℕ) (rest : Bytes) : Type 0 where
  pub fits : CountersFit r
  pub open_if : r.is_open ≡ true → Open r
  pub ready : Ready r.sync rest
  pub balanced : Balanced fed r.sync.stats
  pub mirrors : Mirrors r

abbrev outcome_state : Recorder → Outcome (Unit {0}) → Recorder
outcome_state r (ok a r') = r'
outcome_state r (thrown e r') = r'
outcome_state r fault = r

module _ (os : Os) (rel : Reliable os) where
  pub record Recorded (r : Recorder) (fed : ℕ) (rest bytes : Bytes) (m : Outcome (Unit {0}))
      : Type 0 where
    pub result : Recorder
    pub frames : List Frame
    pub rest' : Bytes
    pub runs : m ≡ ok tt result
    pub decodes : Decodes (rest ++ bytes) frames rest'
    pub live : Live result (fed + length bytes) rest'
    pub written : contents result.disk ≡ contents r.disk ++ wires frames
    pub bytes_written :
        result.stats.bytes_written ≡ (r.stats.bytes_written + total_len frames) % 2 ^ 64
    pub frames_written :
        result.stats.frames_written ≡ (r.stats.frames_written + length frames) % 2 ^ 64

  abbrev synchronized : Recorder → FrameSync → Recorder
  synchronized r sync = record r { sync = sync }

  synchronize_lem :
      (r : Recorder) (bytes : Bytes) (sync : FrameSync) (fs : List Frame)
      → feed r.sync bytes [] ≡ some (sync, fs)
      → synchronize os bytes r ≡ ok fs (synchronized r sync)
  synchronize_lem r bytes sync fs e = ap (deliver os r) e

  -- The state that `count_drops` leaves.
  abbrev counted : Recorder → Recorder
  counted r = outcome_state r (count_drops os r)

  count_drops-Mirrors :
      (r : Recorder) (sync : FrameSync) (m n : ℕ)
      → Mirrors r
      → Balanced m r.sync.stats
      → Balanced n sync.stats
      → Mirrors (counted (synchronized r sync))
  count_drops-Mirrors r sync m n same b b' =
      let crc : r.stats.crc_failed ≡ r.sync.stats.crc_failed = ap (λ d. d.3) same in
      let len : r.stats.length_invalid ≡ r.sync.stats.length_invalid = ap (λ d. d.4) same in
      let all : r.stats.resyncs ≡ r.sync.stats.resyncs = ap (λ d. d.5) same in
      let crc_seen : r.prev_crc_failed ≡ r.sync.stats.crc_failed = ap (λ d. d.0) same in
      let len_seen : r.prev_length_invalid ≡ r.sync.stats.length_invalid = ap (λ d. d.1) same in
      let all_seen : r.prev_resyncs ≡ r.sync.stats.resyncs = ap (λ d. d.2) same in
      let crc' : (counted (synchronized r sync)).stats.crc_failed ≡ sync.stats.crc_failed =
        omega (arith, b.crc_fits, b'.crc_fits) in
      let len' : (counted (synchronized r sync)).stats.length_invalid ≡ sync.stats.length_invalid =
        omega (arith, b.length_fits, b'.length_fits) in
      let all' : (counted (synchronized r sync)).stats.resyncs ≡ sync.stats.resyncs =
        omega (arith, b.failures, b'.failures) in
      λ i. (
        sync.stats.crc_failed,
        sync.stats.length_invalid,
        sync.stats.resyncs,
        crc' i,
        len' i,
        all' i,
      )

  reopened : (r : Recorder) (sync : FrameSync) → Open r → Open (counted (synchronized r sync))
  reopened r sync o = record {
    fits = o.fits;
    open_flag = o.open_flag;
    file = o.file;
    files = o.files;
    newest = o.newest;
  }

  pub record_bytes-Recorded :
      (bytes : Bytes) (r : Recorder) (fed : ℕ) (rest : Bytes)
      → Live r fed rest
      → Recorded r fed rest bytes (record_bytes os bytes r)
  unfolding record_bytes
  record_bytes-Recorded bytes r fed rest v =
      let o = ensure_open-Writes os rel r v.fits v.open_if in
      let r1 = o.result in
      let ready1 = subst (λ s. Ready s rest) (sym o.wrote.same_sync) v.ready in
      let balanced1 =
        subst (λ (s : FrameSync). Balanced fed s.stats) (sym o.wrote.same_sync) v.balanced in
      let f = feed_lem r1.sync bytes [] ready1 in
      let balanced2 = feed-Balanced r1.sync f.result fed bytes [] f.frames balanced1 f.runs in
      let r2 = counted (synchronized r1 f.result) in
      let mirrors1 : Mirrors r1 =
        o.wrote.same_drops ∙ v.mirrors ∙ ap seen (sym o.wrote.same_sync) in
      let mirrors2 =
        count_drops-Mirrors r1 f.result fed (fed + length bytes) mirrors1 balanced1 balanced2 in
      let w = write_frames-Writes os rel f.frames r2 (reopened r1 f.result o.wrote.still_open) in
      record {
        result = w.result;
        frames = f.frames;
        rest' = f.rest';
        runs =
            ap
              (λ m.
                after m
                  (λ _. synchronize os bytes >>= λ out. count_drops os >> write_frames os out))
              o.runs
            ∙ ap (λ m. after m (λ out. count_drops os >> write_frames os out))
                (synchronize_lem r1 bytes f.result f.frames f.runs)
            ∙ w.runs;
        decodes = f.decodes;
        live = record {
          fits = w.wrote.still_open.fits;
          open_if = λ _. w.wrote.still_open;
          ready = subst (λ s. Ready s f.rest') (sym w.wrote.same_sync) f.ready;
          balanced =
              subst (λ (s : FrameSync). Balanced (fed + length bytes) s.stats)
                (sym w.wrote.same_sync) balanced2;
          mirrors = w.wrote.same_drops ∙ mirrors2 ∙ ap seen (sym w.wrote.same_sync);
        };
        written =
            w.wrote.written
            ∙ ap (λ d. d ++ wires f.frames) (o.wrote.written ∙ append-nil (contents r.disk));
        bytes_written = omega (arith, w.wrote.bytes, o.wrote.bytes);
        frames_written = omega (arith, w.wrote.frames, o.wrote.frames);
      }

  record_all-Recorded :
      (chunks : List Bytes) (r : Recorder) (fed : ℕ) (rest : Bytes)
      → Live r fed rest
      → Recorded r fed rest (flatten chunks) (record_all os chunks r)
  unfolding record_all flatten
  record_all-Recorded [] r fed rest v = record {
    result = r;
    frames = [];
    rest' = rest;
    runs = refl;
    decodes = rw (append-nil rest) (record { path = stay refl; stuck = v.ready.held.stuck });
    live = subst (λ n. Live r n rest) (sym (add-zero fed)) v;
    written = sym (append-nil (contents r.disk));
    bytes_written = omega (arith, v.fits);
    frames_written = omega (arith, v.fits);
  }
  record_all-Recorded (chunk ∷ chunks) r fed rest v =
      let one = record_bytes-Recorded chunk r fed rest v in
      let later = record_all-Recorded chunks one.result (fed + length chunk) one.rest' one.live in
      let sum : fed + length chunk + length (flatten chunks)
          ≡ fed + length (chunk ++ flatten chunks) =
        omega (arith, length-append chunk (flatten chunks)) in
      record {
        result = later.result;
        frames = one.frames ++ later.frames;
        rest' = later.rest';
        runs = ap (λ m. after m (λ _. record_all os chunks)) one.runs ∙ later.runs;
        decodes =
            rw (← append_assoc rest chunk (flatten chunks))
              (Decodes-append (flatten chunks) one.decodes later.decodes);
        live = subst (λ n. Live later.result n later.rest') sum later.live;
        written =
            later.written
            ∙ ap (λ d. d ++ wires later.frames) one.written
            ∙ append_assoc (contents r.disk) (wires one.frames) (wires later.frames)
            ∙ ap (λ d. contents r.disk ++ d) (sym (wires-append one.frames later.frames));
        bytes_written = omega (
          arith,
          one.bytes_written,
          later.bytes_written,
          total_len-append one.frames later.frames,
        );
        frames_written = omega (
          arith,
          one.frames_written,
          later.frames_written,
          length-append one.frames later.frames,
        );
      }

-- A new recorder, after any number of calls.
new_recorder-Live :
    (cfg : Config) (calls : ℕ) → Live (record (new_recorder cfg) { calls = calls }) 0 []
new_recorder-Live cfg calls = record {
  fits = omega arith;
  open_if = λ e. cc;
  ready = fresh-Ready;
  balanced = omega arith;
  mirrors = refl;
}

-- What the constructor gives, if it does not throw.
abbrev pub Created : Outcome (Unit {0}) → Type 0
Created (ok u r) = Live r 0 [] × (contents r.disk ≡ [])
Created (thrown e r) = Unit
Created fault = ⊥

pub create-Created : (os : Os) (cfg : Config) → Created (create os cfg)
unfolding create
create-Created os cfg =
    choice Created (os.create_directories 0) _ _ (λ _. (new_recorder-Live cfg 1, refl)) (λ _. tt)

-- When files open and writes are not cut short, recording any chunks from the start on succeeds, and
-- the files in the order in which they were opened hold exactly the wire bytes of the frames that
-- the decoder reads from the chunks together. `bytes_written` is the sum of their length fields and
-- `frames_written` their number, modulo 2^64; the drop counters are those of the synchronizer.
pub record_all-contents :
    (os : Os)
    → Reliable os
    → (cfg : Config) (chunks : List Bytes)
    → (r : Recorder) × (frames : List Frame) × (rest : Bytes) × (record_all os chunks
          (new_recorder cfg)
        ≡ ok tt r)
      × Decodes (flatten chunks) frames rest
      × (contents r.disk ≡ wires frames)
      × (r.stats.bytes_written ≡ total_len frames % 2 ^ 64)
      × (r.stats.frames_written ≡ length frames % 2 ^ 64)
      × Mirrors r
record_all-contents os rel cfg chunks =
    let all = record_all-Recorded os rel chunks (new_recorder cfg) 0 [] (new_recorder-Live cfg 0) in
    (
      all.result,
      all.frames,
      all.rest',
      all.runs,
      all.decodes,
      all.written,
      omega (arith, all.bytes_written),
      omega (arith, all.frames_written),
      all.live.mirrors,
    )
