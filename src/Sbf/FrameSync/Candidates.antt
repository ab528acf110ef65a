-- ===== src/Sbf/FrameSync/Candidates.antt =====
-- The passes of the loop of `feed` on a candidate whose `$@` is read keep the invariant.
use asterx_driver.Base.{
  ℕ, suc, ◌+◌, ◌-◌, ◌≤◌, ◌<◌, true, false, List, ◌∷◌, ◌≡◌, refl, sym, ap, ◌∙◌, inl, inr, arith,
  drop, take, length, length-drop, Bytes, le16, Bool-cases, ◌==◌, ltb,
}
use asterx_driver.Sbf.Crc.{crc_ccitt_xmodem}
use asterx_driver.Sbf.Wire.{Frame, sync1, sync2, valid_length}
use asterx_driver.Sbf.FrameSync.{
  State, idle, got_dollar, reading_header, reading_body, Scan, at_reading_header, at_reading_body,
  complete_frame, pass_in,
}
use asterx_driver.Sbf.FrameSync.Progress.{Progress, Progress-skip, Progress-emit, Inv, Runs}
use asterx_driver.Sbf.FrameSync.Passes.{at_idle-Runs, at_got_dollar-Runs}
use asterx_driver.Sbf.FrameSync.Fields.{
  buf_u16le_lem, length-candidate, copy_covered, copy_body, parse_frame_short,
  parse_frame_bad_length, parse_frame_incomplete, parse_frame_bad_crc, parse_frame_whole,
}

module _ (buf : Bytes) (before : List Frame) (counted : ℕ) where
  header_stalls :
      (s : Scan) (w : Bytes)
      → s.state ≡ reading_header
      → Progress buf before counted s.frame_start s.frame_drain s.out s.stats.frames_emitted
      → drop s.frame_start buf ≡ sync1 ∷ sync2 ∷ w
      → length w < 6
      → Runs buf before counted reading_header s (at_reading_header buf s)
  unfolding at_reading_header
  header_stalls s w st pr e short =
      let len : length buf - s.frame_start ≡ suc (suc (length w)) =
        sym (length-drop s.frame_start buf) ∙ ap length e in
      let test : ltb (length buf) (s.frame_start + 8) ≡ true = ground arith in
      rw test (record {
        st = reading_header;
        inv = record { in_state = st; progress = pr; shape = (w, e) };
        stuck = rw e (parse_frame_short w short);
        at_end = tt;
      })

  header_from :
      (s : Scan) (w : Bytes)
      → s.state ≡ reading_header
      → Progress buf before counted s.frame_start s.frame_drain s.out s.stats.frames_emitted
      → drop s.frame_start buf ≡ sync1 ∷ sync2 ∷ w
      → Runs buf before counted reading_header s (at_reading_header buf s)
  unfolding at_reading_header
  header_from s (c0 ∷ c1 ∷ i0 ∷ i1 ∷ l0 ∷ l1 ∷ rest) st pr e =
      let len : length buf - s.frame_start ≡ 8 + length rest =
        sym (length-drop s.frame_start buf) ∙ ap length e ∙ omega arith in
      let test : ltb (length buf) (s.frame_start + 8) ≡ false = ground arith in
      let field = buf_u16le_lem buf s.frame_start e 6 refl refl in
      elim (Bool-cases (valid_length (le16 l0 l1))) [
        | inl ok ↦
            rw (test, field, ok)
              (record {
                st' = reading_body;
                inv = record {
                  in_state = refl;
                  progress = pr;
                  shape = record {
                    c0 = c0;
                    c1 = c1;
                    i0 = i0;
                    i1 = i1;
                    l0 = l0;
                    l1 = l1;
                    rest = rest;
                    splits = e;
                    valid = ok;
                  };
                };
                falls = omega arith;
              })
        | inr bad ↦
            rw (test, field, bad)
              (record {
                st' = idle;
                inv = record {
                  in_state = refl;
                  progress =
                      Progress-skip buf before counted pr e
                        (parse_frame_bad_length c0 c1 i0 i1 l0 l1 rest bad);
                  shape = tt;
                };
                falls = omega arith;
              })
      ]
  header_from s w st pr e = header_stalls s w st pr e (omega arith)

  at_reading_header-Runs :
      (s : Scan)
      → Inv buf before counted reading_header s
      → Runs buf before counted reading_header s (at_reading_header buf s)
  at_reading_header-Runs s v = header_from s v.shape.0 v.in_state v.progress v.shape.1

  complete-Runs :
      (s : Scan) (c0 c1 i0 i1 l0 l1 : ℕ) (rest : Bytes)
      → Progress buf before counted s.frame_start s.frame_drain s.out s.stats.frames_emitted
      → drop s.frame_start buf ≡ sync1 ∷ sync2 ∷ c0 ∷ c1 ∷ i0 ∷ i1 ∷ l0 ∷ l1 ∷ rest
      → valid_length (le16 l0 l1) ≡ true
      → le16 l0 l1 ≤ length rest + 8
      → Runs buf before counted reading_body s (complete_frame buf s (le16 l0 l1))
  unfolding complete_frame
  complete-Runs s c0 c1 i0 i1 l0 l1 rest pr e valid fits =
      let low : 8 ≤ le16 l0 l1 = ground arith in
      let high : le16 l0 l1 < 65536 = ground arith in
      let len = length-candidate buf s.frame_start c0 c1 i0 i1 l0 l1 rest e pr.ahead in
      let covers = copy_covered buf s.frame_start c0 c1 i0 i1 l0 l1 rest e pr.ahead low high fits in
      let copied = copy_body buf s.frame_start c0 c1 i0 i1 l0 l1 rest e pr.ahead low high fits in
      let header_crc = buf_u16le_lem buf s.frame_start e 2 refl refl in
      let id_field = buf_u16le_lem buf s.frame_start e 4 refl refl in
      elim (Bool-cases
        (crc_ccitt_xmodem (i0 ∷ i1 ∷ l0 ∷ l1 ∷ take (le16 l0 l1 - 8) rest) == le16 c0 c1)) [
          | inl good ↦
              rw (covers, header_crc, id_field, good, copied)
                (record {
                  st' = idle;
                  inv = record {
                    in_state = refl;
                    progress =
                        Progress-emit buf before counted _ pr
                          (rw e (parse_frame_whole c0 c1 i0 i1 l0 l1 rest valid fits good));
                    shape = tt;
                  };
                  falls = omega arith;
                })
          | inr bad ↦
              rw (covers, header_crc, id_field, bad)
                (record {
                  st' = idle;
                  inv = record {
                    in_state = refl;
                    progress =
                        Progress-skip buf before counted pr e
                          (parse_frame_bad_crc c0 c1 i0 i1 l0 l1 rest valid fits bad);
                    shape = tt;
                  };
                  falls = omega arith;
                })
        ]

  body_from :
      (s : Scan) (c0 c1 i0 i1 l0 l1 : ℕ) (rest : Bytes)
      → s.state ≡ reading_body
      → Progress buf before counted s.frame_start s.frame_drain s.out s.stats.frames_emitted
      → drop s.frame_start buf ≡ sync1 ∷ sync2 ∷ c0 ∷ c1 ∷ i0 ∷ i1 ∷ l0 ∷ l1 ∷ rest
      → valid_length (le16 l0 l1) ≡ true
      → Runs buf before counted reading_body s (at_reading_body buf s)
  unfolding at_reading_body
  body_from s c0 c1 i0 i1 l0 l1 rest st pr e valid =
      let len = length-candidate buf s.frame_start c0 c1 i0 i1 l0 l1 rest e pr.ahead in
      let field = buf_u16le_lem buf s.frame_start e 6 refl refl in
      elim (Bool-cases (ltb (length buf) (s.frame_start + le16 l0 l1))) [
        | inl short ↦
            rw (field, short)
              (record {
                st = reading_body;
                inv = record {
                  in_state = st;
                  progress = pr;
                  shape = record {
                    c0 = c0;
                    c1 = c1;
                    i0 = i0;
                    i1 = i1;
                    l0 = l0;
                    l1 = l1;
                    rest = rest;
                    splits = e;
                    valid = valid;
                  };
                };
                stuck = rw e (parse_frame_incomplete c0 c1 i0 i1 l0 l1 rest valid (ground arith));
                at_end = tt;
              })
        | inr enough ↦
            rw (field, enough) (complete-Runs s c0 c1 i0 i1 l0 l1 rest pr e valid (ground arith))
      ]

  at_reading_body-Runs :
      (s : Scan)
      → Inv buf before counted reading_body s
      → Runs buf before counted reading_body s (at_reading_body buf s)
  at_reading_body-Runs s v =
      let h = v.shape in
      body_from s h.c0 h.c1 h.i0 h.i1 h.l0 h.l1 h.rest v.in_state v.progress h.splits h.valid

  -- Every pass, in every state.
  pub pass-Runs :
      (st : State) (s : Scan)
      → Inv buf before counted st s
      → Runs buf before counted st s (pass_in buf st s)
  unfolding pass_in
  pass-Runs idle s v = at_idle-Runs buf before counted s v
  pass-Runs got_dollar s v = at_got_dollar-Runs buf before counted s v
  pass-Runs reading_header s v = at_reading_header-Runs s v
  pass-Runs reading_body s v = at_reading_body-Runs s v
