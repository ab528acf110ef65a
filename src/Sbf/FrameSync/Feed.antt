-- ===== src/Sbf/FrameSync/Feed.antt =====
-- `feed` against the decoder: one call, and any sequence of calls.
use mathlib.Core.List.{append-nil}
use mathlib.Core.Path.{subst}
use asterx_driver.Base.{
  ℕ, ◌+◌, ◌%◌, ◌^◌, ◌≤◌, ◌<◌, true, List, [], ◌++◌, ◌≡◌, refl, sym, ap, ◌∙◌, inl, inr, arith, drop,
  length, Bytes, some, Bool-cases, ltb, leb, u64,
}
use asterx_driver.Sbf.Wire.{Frame}
use asterx_driver.Sbf.Decoder.{stay, Decodes}
use asterx_driver.Sbf.Decoder.Laws.{Decodes-split}
use asterx_driver.Sbf.FrameSync.{
  State, idle, got_dollar, reading_header, reading_body, FrameSync, Scan, scan, scan_fuel,
  start_scan, admit, trim, feed,
}
use asterx_driver.Sbf.FrameSync.Progress.{Progress, Inv, Stalled, Shape, measure, rank, anchor_in}
use asterx_driver.Sbf.FrameSync.Ready.{
  Anchored, Ready, Kept, Shape-append, Anchored-Shape, scan_runs, trim_keeps,
}

-- The member of `FrameSync` that the loop starts from.
abbrev admitted : FrameSync → Bytes → FrameSync
admitted f bytes = record {
  buf = drop f.frame_drain f.buf ++ bytes;
  state = f.state;
  stats = record f.stats { bytes_consumed = u64 (f.stats.bytes_consumed + length bytes) };
  frame_drain = 0;
}

admit_lem :
    (f : FrameSync) (bytes : Bytes)
    → f.frame_drain ≤ length f.buf
    → admit f bytes ≡ some (admitted f bytes)
unfolding admit
admit_lem f bytes fits = elim (Bool-cases (ltb 0 f.frame_drain)) [
  | inl waits ↦ let ok : leb f.frame_drain (length f.buf) ≡ true = ground arith in rw (waits, ok)
  | inr nothing ↦
      let z : f.frame_drain ≡ 0 = ground arith in
      rw nothing
        (ap (λ d. some (record (admitted f bytes) { buf = drop d f.buf ++ bytes })) (sym z))
]

rank-lt : (st : State) → rank st < 4
rank-lt idle = omega arith
rank-lt got_dollar = omega arith
rank-lt reading_header = omega arith
rank-lt reading_body = omega arith

start-Progress :
    (buf : Bytes) (out : List Frame) (n : ℕ) → n < 2 ^ 64 → Progress buf out n 0 0 out n
start-Progress buf out n lt = record {
  ahead = omega arith;
  drained = omega arith;
  skipped = stay refl;
  frames = [];
  emitted = sym (append-nil out);
  path = stay refl;
  tally = omega arith;
}

start-Inv :
    (g : FrameSync) (out : List Frame) (st : State)
    → g.state ≡ st
    → g.frame_drain ≡ 0
    → g.stats.frames_emitted < 2 ^ 64
    → Shape st g.buf
    → Inv g.buf out g.stats.frames_emitted st (start_scan g out)
start-Inv g out idle e z lt h = record {
  in_state = e;
  progress = rw z (start-Progress g.buf out _ lt);
  shape = h;
}
start-Inv g out got_dollar e z lt h = record {
  in_state = e;
  progress = rw z (start-Progress g.buf out _ lt);
  shape = h;
}
start-Inv g out reading_header e z lt h = record {
  in_state = e;
  progress = rw z (start-Progress g.buf out _ lt);
  shape = h;
}
start-Inv g out reading_body e z lt h = record {
  in_state = e;
  progress = rw z (start-Progress g.buf out _ lt);
  shape = h;
}

-- What a call makes of the bytes held back and the new ones.
pub record Fed (f : FrameSync) (bytes : Bytes) (out : List Frame) (rest : Bytes) : Type 0 where
  pub result : FrameSync
  pub frames : List Frame
  pub rest' : Bytes
  pub runs : feed f bytes out ≡ some (result, out ++ frames)
  pub decodes : Decodes (rest ++ bytes) frames rest'
  pub ready : Ready result rest'
  pub tally : result.stats.frames_emitted ≡ (f.stats.frames_emitted + length frames) % 2 ^ 64

module _ (f : FrameSync) (bytes : Bytes) (out : List Frame) {rest : Bytes}
    (ready : Ready f rest) where
  abbrev g : FrameSync
  g = admitted f bytes

  fed :
      (s : Scan) (kept : Bytes × ℕ)
      → scan g.buf (scan_fuel (length g.buf)) (start_scan g out) ≡ some s
      → (end : Stalled g.buf out f.stats.frames_emitted s) → trim end.st g.buf s ≡ some kept
      → Kept end.st (drop (anchor_in end.st s.pos s.frame_start) g.buf) kept
      → Fed f bytes out rest
  unfolding feed
  fed s kept scanned end trimmed keeps =
      let p = end.inv.progress in
      let (frames, same, decodes) =
        Decodes-split bytes ready.held (record { path = p.path; stuck = end.stuck }) in
      record {
        result = record { buf = kept.0; state = s.state; stats = s.stats; frame_drain = kept.1 };
        frames = frames;
        rest' = drop (anchor_in end.st s.pos s.frame_start) g.buf;
        runs =
            rw (admit_lem f bytes ready.drain_fits, scanned)
              (rw (ap (λ st. trim st g.buf s) end.inv.in_state ∙ trimmed)
                (rw (p.emitted ∙ ap (λ fs. out ++ fs) same)));
        decodes = decodes;
        ready = record {
          drain_fits = keeps.fits;
          anchored = subst (λ st. Anchored st kept.1 kept.0) (sym end.inv.in_state) keeps.anchored;
          held = record { path = keeps.skipped; stuck = end.stuck };
          counter = omega (arith, p.tally);
        };
        tally = p.tally ∙ ap (λ fs. (f.stats.frames_emitted + length fs) % 2 ^ 64) same;
      }

  -- One call of `feed`, whatever state the calls before have left.
  pub feed_lem : Fed f bytes out rest
  feed_lem =
      let start = start-Inv g out f.state refl refl ready.counter (
        Shape-append f.state (drop f.frame_drain f.buf) bytes
          (Anchored-Shape f.state f.frame_drain f.buf ready.anchored)) in
      let enough : measure g.buf out f.stats.frames_emitted f.state (start_scan g out)
          < scan_fuel (length g.buf) =
        omega (arith, rank-lt f.state) in
      let (s, scanned, end) =
        scan_runs g.buf out f.stats.frames_emitted (scan_fuel (length g.buf)) f.state
          (start_scan g out) start enough in
      let (kept, trimmed, keeps) =
        trim_keeps g.buf out f.stats.frames_emitted s end.st end.inv end.at_end in
      fed s kept scanned end trimmed keeps
