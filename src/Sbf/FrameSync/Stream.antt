-- ===== src/Sbf/FrameSync/Stream.antt =====
-- Any number of calls of `feed` against the decoder.
use mathlib.Core.List.{append-nil, append_assoc, flatten}
use asterx_driver.Base.{
  ◌+◌, ◌%◌, ◌^◌, ◌<◌, List, [], ◌∷◌, ◌++◌, ◌≡◌, refl, sym, ap, ◌∙◌, arith, length, length-append,
  Bytes, some,
}
use asterx_driver.Sbf.Wire.{Frame, more, parse_frame}
use asterx_driver.Sbf.Decoder.{stay, Decodes}
use asterx_driver.Sbf.Decoder.Laws.{Decodes-append, Decodes-unique}
use asterx_driver.Sbf.FrameSync.{FrameSync, fresh, feed_all, reset}
use asterx_driver.Sbf.FrameSync.Ready.{Ready}
use asterx_driver.Sbf.FrameSync.Feed.{feed_lem}

pub record FedAll (f : FrameSync) (chunks : List Bytes) (out : List Frame) (rest : Bytes)
    : Type 0 where
  pub result : FrameSync
  pub frames : List Frame
  pub rest' : Bytes
  pub runs : feed_all f chunks out ≡ some (result, out ++ frames)
  pub decodes : Decodes (rest ++ flatten chunks) frames rest'
  pub ready : Ready result rest'
  pub tally : result.stats.frames_emitted ≡ (f.stats.frames_emitted + length frames) % 2 ^ 64

pub feed_all_lem :
    (chunks : List Bytes) (f : FrameSync) (out : List Frame) (rest : Bytes)
    → Ready f rest
    → FedAll f chunks out rest
unfolding feed_all flatten
feed_all_lem [] f out rest ready = record {
  result = f;
  frames = [];
  rest' = rest;
  runs = rw (append-nil out);
  decodes = rw (append-nil rest) (record { path = stay refl; stuck = ready.held.stuck });
  ready = ready;
  tally = omega (arith, ready.counter);
}
feed_all_lem (chunk ∷ chunks) f out rest ready =
    let one = feed_lem f chunk out ready in
    let later = feed_all_lem chunks one.result (out ++ one.frames) one.rest' one.ready in
    record {
      result = later.result;
      frames = one.frames ++ later.frames;
      rest' = later.rest';
      runs = rw (one.runs) (rw (later.runs, append_assoc out one.frames later.frames));
      decodes =
          rw (← append_assoc rest chunk (flatten chunks))
            (Decodes-append (flatten chunks) one.decodes later.decodes);
      ready = later.ready;
      tally = omega (arith, one.tally, later.tally, length-append one.frames later.frames);
    }

parse_frame_nil : parse_frame [] ≡ more
unfolding parse_frame
parse_frame_nil = refl

-- Between streams nothing is held back.
empty-Ready : (f : FrameSync) → f.stats.frames_emitted < 2 ^ 64 → Ready (reset f) []
unfolding reset
empty-Ready f lt = record {
  drain_fits = omega arith;
  anchored = tt;
  held = record { path = stay refl; stuck = parse_frame_nil };
  counter = lt;
}

pub fresh-Ready : Ready fresh []
unfolding reset
fresh-Ready = empty-Ready fresh (omega arith)

-- Fed with any chunks, from its construction on, the synchronizer meets no undefined behaviour and
-- no failed assertion, its loop ends, and it emits exactly the frames that the decoder reads from
-- the bytes of all chunks together, in order. `frames_emitted` counts them, modulo 2^64.
pub feed_all-Decodes :
    (chunks : List Bytes)
    → (f : FrameSync) × (frames : List Frame) × (rest : Bytes) × (feed_all fresh chunks []
        ≡ some (f, frames))
      × Decodes (flatten chunks) frames rest
      × (f.stats.frames_emitted ≡ length frames % 2 ^ 64)
feed_all-Decodes chunks =
    let r = feed_all_lem chunks fresh [] [] fresh-Ready in
    (r.result, r.frames, r.rest', r.runs, r.decodes, omega (arith, r.tally))

-- The emitted frames depend on the bytes, and not on how they are cut into chunks.
pub feed_all_chunking :
    (xs ys : List Bytes)
    → flatten xs ≡ flatten ys
    → (f g : FrameSync) × (frames : List Frame) × (feed_all fresh xs [] ≡ some (f, frames))
      × (feed_all fresh ys [] ≡ some (g, frames))
feed_all_chunking xs ys e =
    let a = feed_all_lem xs fresh [] [] fresh-Ready in
    let b = feed_all_lem ys fresh [] [] fresh-Ready in
    let same = Decodes-unique (rw e at a.decodes) b.decodes in
    (a.result, b.result, a.frames, a.runs, b.runs ∙ ap (λ fs. some (b.result, fs)) (sym same.0))

-- After any chunks and a `reset`, the chunks that follow are decoded as if nothing had come before
-- them.
pub feed_all-reset :
    (xs ys : List Bytes)
    → (f g : FrameSync) × (before after : List Frame) × (rest : Bytes) × (feed_all fresh xs []
        ≡ some (f, before))
      × (feed_all (reset f) ys [] ≡ some (g, after))
      × Decodes (flatten ys) after rest
feed_all-reset xs ys =
    let a = feed_all_lem xs fresh [] [] fresh-Ready in
    let b = feed_all_lem ys (reset a.result) [] [] (empty-Ready a.result a.ready.counter) in
    (a.result, b.result, a.frames, b.frames, b.rest', a.runs, b.runs, b.decodes)
