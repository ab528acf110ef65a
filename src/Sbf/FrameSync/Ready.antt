-- ===== src/Sbf/FrameSync/Ready.antt =====
-- The synchronizer between two calls of `feed`, and what one call does.
use mathlib.Core.Path.{subst}
use asterx_driver.Base.{
  ℕ, zero, suc, ◌^◌, ◌≤◌, ◌<◌, true, false, List, [], ◌++◌, ◌≡◌, refl, sym, ap, ◌∙◌, inl, inr,
  arith, drop, length, Bytes, Option, none, some, Bool-cases, ==_iff, ltb, leb, ◌==◌,
}
use asterx_driver.Sbf.Wire.{Frame}
use asterx_driver.Sbf.Decoder.{Reads, stay, Decodes}
use asterx_driver.Sbf.FrameSync.{
  State, idle, got_dollar, reading_header, reading_body, FrameSync, Scan, Pass, pass_in, scan, trim,
  trim_candidate,
}
use asterx_driver.Sbf.FrameSync.Progress.{
  Progress, Shape, Inv, Stalled, Runs, AtEnd, anchor_in, measure,
}
use asterx_driver.Sbf.FrameSync.Candidates.{pass-Runs}

module _ (buf : Bytes) (before : List Frame) (counted : ℕ) where
  scan_from :
      (fuel : ℕ) (st : State) (s : Scan) (r : Option Pass)
      → pass_in buf s.state s ≡ r
      → Runs buf before counted st s r
      → measure buf before counted st s < suc fuel
      → ((st' : State) (s' : Scan)
          → Inv buf before counted st' s'
          → measure buf before counted st' s' < fuel
          → (t : Scan) × (scan buf fuel s' ≡ some t) × Stalled buf before counted t)
      → (t : Scan) × (scan buf (suc fuel) s ≡ some t) × Stalled buf before counted t
  unfolding scan
  scan_from fuel st s none e r lt ih = absurd r
  scan_from fuel st s (some (s', true)) e r lt ih =
      let (t, runs, stalled) = ih r.st' s' r.inv (omega (arith, r.falls)) in
      (t, rw (e, runs), stalled)
  scan_from fuel st s (some (s', false)) e r lt ih = (s', rw e, r)

  -- The loop ends, without a fault, when no pass makes progress.
  pub scan_runs :
      (fuel : ℕ) (st : State) (s : Scan)
      → Inv buf before counted st s
      → measure buf before counted st s < fuel
      → (t : Scan) × (scan buf fuel s ≡ some t) × Stalled buf before counted t
  scan_runs zero st s v lt = absurd (omega arith)
  scan_runs (suc fuel) st s v lt =
      scan_from fuel st s (pass_in buf st s) (ap (λ k. pass_in buf k s) v.in_state)
        (pass-Runs buf before counted st s v) lt (scan_runs fuel)

-- In the middle of a candidate the buffer begins with it, and nothing waits to be drained.
abbrev pub Anchored : State → ℕ → Bytes → Type 0
Anchored idle drain buf = Unit {0}
Anchored got_dollar drain buf = (drain ≡ 0) × Shape got_dollar buf
Anchored reading_header drain buf = (drain ≡ 0) × Shape reading_header buf
Anchored reading_body drain buf = (drain ≡ 0) × Shape reading_body buf

-- `rest` is what a decoder would keep of the bytes so far.
pub record Ready (f : FrameSync) (rest : Bytes) : Type 0 where
  pub drain_fits : f.frame_drain ≤ length f.buf
  pub anchored : Anchored f.state f.frame_drain f.buf
  pub held : Decodes (drop f.frame_drain f.buf) [] rest
  pub counter : f.stats.frames_emitted < 2 ^ 64

pub Shape-append : (st : State) (u w : Bytes) → Shape st u → Shape st (u ++ w)
Shape-append idle u w h = tt
Shape-append got_dollar u w (v, e) = (v ++ w, rw e)
Shape-append reading_header u w (v, e) = (v ++ w, rw e)
Shape-append reading_body u w h = record {
  c0 = h.c0;
  c1 = h.c1;
  i0 = h.i0;
  i1 = h.i1;
  l0 = h.l0;
  l1 = h.l1;
  rest = h.rest ++ w;
  splits = rw (h.splits);
  valid = h.valid;
}

pub Anchored-Shape :
    (st : State) (drain : ℕ) (buf : Bytes) → Anchored st drain buf → Shape st (drop drain buf)
Anchored-Shape idle drain buf h = tt
Anchored-Shape got_dollar drain buf h = rw (h.0) (h.1)
Anchored-Shape reading_header drain buf h = rw (h.0) (h.1)
Anchored-Shape reading_body drain buf h = rw (h.0) (h.1)

-- What `trim` keeps of the buffer.
pub record Kept (st : State) (goal : Bytes) (kept : Bytes × ℕ) : Type 0 where
  pub fits : kept.1 ≤ length kept.0
  pub anchored : Anchored st kept.1 kept.0
  pub skipped : Reads (drop kept.1 kept.0) [] goal

module _ (buf : Bytes) (before : List Frame) (counted : ℕ) (s : Scan) where
  trim_idle_keeps :
      Inv buf before counted idle s
      → s.pos ≡ length buf
      → (k : Bytes × ℕ) × (trim idle buf s ≡ some k) × Kept idle (drop s.pos buf) k
  unfolding trim
  trim_idle_keeps v e = elim (Bool-cases (s.frame_drain == 0)) [
    | inl none_emitted ↦ elim (Bool-cases (ltb 0 s.pos)) [
      | inl some_read ↦
          let fits : leb s.pos (length buf) ≡ true = ground arith in
          (
            (drop s.pos buf, s.frame_drain),
            rw (none_emitted, some_read, fits),
            record {
              fits = ground arith;
              anchored = tt;
              skipped =
                  stay
                    (ap (λ d. drop d (drop s.pos buf)) ((==_iff s.frame_drain 0).0 none_emitted));
            },
          )
      | inr empty ↦ (
        (buf, s.frame_drain),
        rw (none_emitted, empty),
        record { fits = ground arith; anchored = tt; skipped = v.progress.skipped },
      )
    ]
    | inr emitted ↦ (
      (buf, s.frame_drain),
      rw emitted,
      record {
        fits = omega (arith, v.progress.drained);
        anchored = tt;
        skipped = v.progress.skipped;
      },
    )
  ]

  trim_candidate_keeps :
      (st : State)
      → Progress buf before counted s.frame_start s.frame_drain s.out s.stats.frames_emitted
      → ((d : ℕ) (u : Bytes) → d ≡ 0 → u ≡ drop s.frame_start buf → Anchored st d u)
      → (k : Bytes × ℕ) × (trim_candidate buf s ≡ some k) × Kept st (drop s.frame_start buf) k
  unfolding trim_candidate
  trim_candidate_keeps st pr shape = elim (Bool-cases (ltb 0 s.frame_start)) [
    | inl later ↦
        let drained : leb s.frame_drain s.frame_start ≡ true = ground (arith, pr.drained) in
        let fits : leb s.frame_start (length buf) ≡ true = ground (arith, pr.ahead) in
        (
          (drop s.frame_start buf, 0),
          rw (later, drained, fits),
          record { fits = omega arith; anchored = shape _ _ refl refl; skipped = stay refl },
        )
    | inr first ↦
        let start : s.frame_start ≡ 0 = ground arith in
        let drain : s.frame_drain ≡ 0 = omega (arith, pr.drained) in
        let whole_buf : buf ≡ drop s.frame_start buf = ap (λ k. drop k buf) (sym start) in
        (
          (buf, s.frame_drain),
          rw first,
          record {
            fits = omega arith;
            anchored = shape _ _ drain whole_buf;
            skipped = stay (ap (λ d. drop d buf) drain ∙ whole_buf);
          },
        )
  ]

  pub trim_keeps :
      (st : State)
      → Inv buf before counted st s
      → AtEnd buf before counted st s
      → (k : Bytes × ℕ) × (trim st buf s ≡ some k)
        × Kept st (drop (anchor_in st s.pos s.frame_start) buf) k
  unfolding trim
  trim_keeps idle v e = trim_idle_keeps v e
  trim_keeps got_dollar v e =
      trim_candidate_keeps got_dollar v.progress
        (λ d u z eq. (z, subst (Shape got_dollar) (sym eq) v.shape))
  trim_keeps reading_header v e =
      trim_candidate_keeps reading_header v.progress
        (λ d u z eq. (z, subst (Shape reading_header) (sym eq) v.shape))
  trim_keeps reading_body v e =
      trim_candidate_keeps reading_body v.progress
        (λ d u z eq. (z, subst (Shape reading_body) (sym eq) v.shape))
