-- ===== src/Sbf/FrameSync/Passes.antt =====
-- Each pass of the loop of `feed` keeps the invariant.
use asterx_driver.Base.{
  ℕ, zero, suc, ◌+◌, ◌-◌, ◌≤◌, ◌<◌, true, false, List, [], ◌∷◌, ◌≡◌, refl, sym, ap, ◌∙◌, ◌⊎◌, inl,
  inr, arith, drop, length, length-drop, drop-cons, drop-drop, drop_all, get_elem?-drop, get_elem?,
  Bytes, some, Bool-cases, ==_iff, ◌==◌, ltb, leb,
}
use asterx_driver.Sbf.Wire.{Frame, junk, more, parse_frame, sync1, sync2}
use asterx_driver.Sbf.FrameSync.{
  idle, got_dollar, reading_header, Scan, skip_junk, at_idle, at_got_dollar,
}
use asterx_driver.Sbf.FrameSync.Progress.{Progress, Progress-skip, Inv, Runs}

parse_frame_not_sync : (b : ℕ) (v : Bytes) → (b == sync1) ≡ false → parse_frame (b ∷ v) ≡ junk
unfolding parse_frame
parse_frame_not_sync b v h = ground arith

parse_frame_nil : parse_frame [] ≡ more
unfolding parse_frame
parse_frame_nil = refl

parse_frame_dollar : parse_frame (sync1 ∷ []) ≡ more
unfolding parse_frame
parse_frame_dollar = refl

parse_frame_not_at : (c : ℕ) (w : Bytes) → (c == sync2) ≡ false → parse_frame (sync1 ∷ c ∷ w) ≡ junk
unfolding parse_frame
parse_frame_not_at c w h = ground arith

module _ (buf : Bytes) (before : List Frame) (counted : ℕ) where
  abbrev AtDollar : ℕ → Type 0
  AtDollar p = (p ≡ length buf) ⊎ ((v : Bytes) × (drop p buf ≡ sync1 ∷ v) × (p < length buf))

  skip_junk_lem :
      (left pos : ℕ) {drain count : ℕ} {out : List Frame}
      → pos + left ≡ length buf
      → Progress buf before counted pos drain out count
      → (p : ℕ) × (skip_junk buf left pos ≡ some p)
        × (pos ≤ p)
        × Progress buf before counted p drain out count
        × AtDollar p
  unfolding skip_junk
  skip_junk_lem zero pos e pr = (pos, refl, omega arith, pr, inl (omega arith))
  skip_junk_lem (suc left) pos e pr =
      let (b, split, at) = drop-cons pos buf (omega arith) in
      elim (Bool-cases (b == sync1)) [
        | inl t ↦ (
          pos,
          rw (at, t),
          omega arith,
          pr,
          inr (drop (pos + 1) buf, rw ((==_iff b sync1).0 t) at split, omega arith),
        )
        | inr f ↦
            let r =
              skip_junk_lem left (pos + 1) (omega arith)
                (Progress-skip buf before counted pr split (parse_frame_not_sync b _ f)) in
            (r.0, rw (at, f) r.1, omega (arith, r.2), r.3, r.4)
      ]

  pub at_idle-Runs :
      (s : Scan) → Inv buf before counted idle s → Runs buf before counted idle s (at_idle buf s)
  unfolding at_idle
  at_idle-Runs s v =
      let (p, runs, mono, pr, found) =
        skip_junk_lem (length buf - s.pos) s.pos (omega (arith, v.progress.ahead)) v.progress in
      elim found [
        | inl e ↦
            let test : ltb p (length buf) ≡ false = ground arith in
            rw (runs, test)
              (record {
                st = idle;
                inv = record { in_state = v.in_state; progress = pr; shape = tt };
                stuck = rw (drop_all p buf (omega arith)) parse_frame_nil;
                at_end = e;
              })
        | inr (w, e, lt) ↦
            let test : ltb p (length buf) ≡ true = ground arith in
            rw (runs, test)
              (record {
                st' = got_dollar;
                inv = record { in_state = refl; progress = pr; shape = (w, e) };
                falls = omega arith;
              })
      ]

  got_dollar_from :
      (s : Scan) (w : Bytes)
      → s.state ≡ got_dollar
      → Progress buf before counted s.frame_start s.frame_drain s.out s.stats.frames_emitted
      → drop s.frame_start buf ≡ sync1 ∷ w
      → Runs buf before counted got_dollar s (at_got_dollar buf s)
  unfolding at_got_dollar
  got_dollar_from s [] st pr e =
      let len : length buf - s.frame_start ≡ 1 =
        sym (length-drop s.frame_start buf) ∙ ap length e in
      let test : leb (length buf) (s.frame_start + 1) ≡ true = ground arith in
      rw test (record {
        st = got_dollar;
        inv = record { in_state = st; progress = pr; shape = ([], e) };
        stuck = rw e parse_frame_dollar;
        at_end = tt;
      })
  got_dollar_from s (c ∷ w) st pr e =
      let len : length buf - s.frame_start ≡ suc (suc (length w)) =
        sym (length-drop s.frame_start buf) ∙ ap length e in
      let test : leb (length buf) (s.frame_start + 1) ≡ false = ground arith in
      let next : get_elem? buf (s.frame_start + 1) ≡ some c =
        get_elem?-drop s.frame_start 1 (s.frame_start + 1) buf refl ∙ ap (λ t. get_elem? t 1) e in
      elim (Bool-cases (c == sync2)) [
        | inl at ↦
            rw (test, next, at)
              (record {
                st' = reading_header;
                inv = record {
                  in_state = refl;
                  progress = pr;
                  shape = (w, rw ((==_iff c sync2).0 at) at e);
                };
                falls = omega arith;
              })
        | inr miss ↦
            let on = Progress-skip buf before counted pr e (parse_frame_not_at c w miss) in
            elim (Bool-cases (c == sync1)) [
              | inl dollar ↦
                  rw (test, next, miss, dollar)
                    (record {
                      st' = got_dollar;
                      inv = record {
                        in_state = st;
                        progress = on;
                        shape = (
                          w,
                          rw (drop-drop s.frame_start 1 (s.frame_start + 1) buf refl, e)
                              (ap (λ t. t ∷ w) ((==_iff c sync1).0 dollar)),
                        );
                      };
                      falls = omega arith;
                    })
              | inr other ↦
                  rw (test, next, miss, other)
                    (record {
                      st' = idle;
                      inv = record { in_state = refl; progress = on; shape = tt };
                      falls = omega arith;
                    })
            ]
      ]

  pub at_got_dollar-Runs :
      (s : Scan)
      → Inv buf before counted got_dollar s
      → Runs buf before counted got_dollar s (at_got_dollar buf s)
  at_got_dollar-Runs s v = got_dollar_from s v.shape.0 v.in_state v.progress v.shape.1
