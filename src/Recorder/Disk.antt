-- ===== src/Recorder/Disk.antt =====
-- What the recorder leaves on the disk when the operating system grants its requests.
use mathlib.Core.List.{append-nil, append_assoc}
use asterx_driver.Base.{
  ℕ, suc, ◌+◌, ◌-◌, true, ◌||◌, List, [], ◌∷◌, ◌++◌, ◌≡◌, refl, sym, ap, ◌∙◌, arith, inl, inr,
  Bool-cases, if_true, if_false, leb, ◌==◌, ==_iff, length, take, Bytes, u64,
}
use asterx_driver.Sbf.Wire.{Frame}
use asterx_driver.Sbf.FrameSync.{bump}
use asterx_driver.Recorder.{
  Os, File, Recorder, Failure, Outcome, ok, append_newest, header, open_new_file, rotate_if_needed,
  after, ◌>>◌, close_previous, file_name, open_next, ensure_open, write_bytes, write_body,
  count_frame, write_frame, write_frames, header_write, body_write,
}
use asterx_driver.Recorder.Format.{wire}
use asterx_driver.Recorder.Wrote.{Reliable, contents, CountersFit, Open, drops, Wrote, Wrote-trans}

module _ (os : Os) (rel : Reliable os) where
  take_all : (bytes : Bytes) → take (length bytes) bytes ≡ bytes
  take_all [] = refl
  take_all (b ∷ bytes) = ap (◌∷◌ b) (take_all bytes)

  write_bytes_lem :
      (bytes : Bytes) (failure : Failure) (r : Recorder)
      → write_bytes os bytes failure r
        ≡ ok tt (record r { disk = append_newest r.disk bytes; calls = suc r.calls })
  unfolding write_bytes
  write_bytes_lem bytes failure r =
      let all : (length bytes == length bytes) ≡ true = (==_iff _ _).1 refl in
      rw (rel.writes, all, take_all bytes)

  -- The state after some bytes went to the newest file.
  abbrev appended : Recorder → List File → ℕ → Recorder
  appended r disk calls = record r { disk = disk; calls = calls }

  abbrev counted : Frame → Recorder → Recorder
  counted f r = record r {
    current_size = u64 (r.current_size + f.len);
    stats = record r.stats {
      bytes_written = u64 (r.stats.bytes_written + f.len);
      frames_written = bump r.stats.frames_written;
    };
  }

  record Appends (r : Recorder) (bytes : Bytes) (m : Outcome (Unit {0})) : Type 0 where
    file : File
    files : List File
    calls : ℕ
    runs : m ≡ ok tt (appended r (file ∷ files) calls)
    grows : contents (file ∷ files) ≡ contents r.disk ++ bytes

  write_bytes-Appends :
      (bytes : Bytes) (failure : Failure) (r : Recorder) (o : Open r)
      → Appends r bytes (write_bytes os bytes failure r)
  write_bytes-Appends bytes failure r o = record {
    file = record o.file { content = o.file.content ++ bytes };
    files = o.files;
    calls = suc r.calls;
    runs =
        write_bytes_lem bytes failure r
        ∙ ap (λ d. ok tt (appended r (append_newest d bytes) (suc r.calls))) o.newest;
    grows =
        sym (append_assoc (contents o.files) o.file.content bytes)
        ∙ ap (λ d. contents d ++ bytes) (sym o.newest);
  }

  write_body-Appends :
      (bytes : Bytes) (r : Recorder) (o : Open r) → Appends r bytes (write_body os bytes r)
  write_body-Appends [] r o = record {
    file = o.file;
    files = o.files;
    calls = r.calls;
    runs = ap (λ d. ok tt (appended r d r.calls)) o.newest;
    grows = ap contents (sym o.newest) ∙ sym (append-nil (contents r.disk));
  }
  write_body-Appends (b ∷ bytes) r o = write_bytes-Appends (b ∷ bytes) body_write r o

  pub record Writes (r : Recorder) (fs : List Frame) (m : Outcome (Unit {0})) : Type 0 where
    pub result : Recorder
    pub runs : m ≡ ok tt result
    pub wrote : Wrote r fs result

  write_frame-Writes :
      (f : Frame) (r : Recorder) (o : Open r) → Writes r (f ∷ []) (write_frame os f r)
  unfolding write_frame
  write_frame-Writes f r o =
      let h = write_bytes-Appends (header f) header_write r o in
      let r1 = appended r (h.file ∷ h.files) h.calls in
      let o1 : Open r1 = record {
        fits = o.fits;
        open_flag = o.open_flag;
        file = h.file;
        files = h.files;
        newest = refl;
      } in
      let b = write_body-Appends f.body r1 o1 in
      record {
        result = counted f (appended r (b.file ∷ b.files) b.calls);
        runs =
            ap (λ m. after m (λ _. write_body os f.body >> count_frame os f)) h.runs
            ∙ ap (λ m. after m (λ _. count_frame os f)) b.runs;
        wrote = record {
          still_open = record {
            fits = omega arith;
            open_flag = o.open_flag;
            file = b.file;
            files = b.files;
            newest = refl;
          };
          same_sync = refl;
          same_drops = refl;
          written =
              b.grows
              ∙ ap (λ t. t ++ f.body) h.grows
              ∙ append_assoc (contents r.disk) (header f) f.body
              ∙ ap (λ t. contents r.disk ++ t) (sym (append-nil (wire f)));
          bytes = omega arith;
          frames = omega arith;
        };
      }

  abbrev opened : Recorder → Recorder
  opened q = record q {
    current_path = os.join_path q.cfg.output_dir (file_name os q);
    is_open = true;
    current_size = 0;
    file_start = os.steady_now q.calls;
    disk = record { path = os.join_path q.cfg.output_dir (file_name os q); content = [] } ∷ q.disk;
    calls = suc q.calls;
  }

  open_next_lem : (q : Recorder) → open_next os q ≡ ok tt (opened q)
  open_next_lem q = rw (rel.opens q.calls)

  close_previous_keeps :
      (r : Recorder)
      → ((close_previous os r).sync ≡ r.sync)
        × ((close_previous os r).disk ≡ r.disk)
        × (drops (close_previous os r) ≡ drops r)
  close_previous_keeps r = ground arith

  -- Opening a file writes nothing.
  open_new_file-Writes : (r : Recorder) → CountersFit r → Writes r [] (open_new_file os r)
  unfolding open_new_file
  open_new_file-Writes r fit =
      let keep = close_previous_keeps r in
      let q = record (close_previous os r) { seq = (close_previous os r).seq + 1 } in
      record {
        result = opened q;
        runs = open_next_lem q;
        wrote = record {
          still_open = record {
            fits = ground arith;
            open_flag = refl;
            file = record { path = os.join_path q.cfg.output_dir (file_name os q); content = [] };
            files = q.disk;
            newest = refl;
          };
          same_sync = keep.0;
          same_drops = keep.2;
          written = ap (λ d. contents d ++ []) keep.1;
          bytes = ground arith;
          frames = ground arith;
        };
      }

  unchanged : (r : Recorder) (calls : ℕ) → Open r → Wrote r [] (record r { calls = calls })
  unchanged r calls o = record {
    still_open = record {
      fits = o.fits;
      open_flag = o.open_flag;
      file = o.file;
      files = o.files;
      newest = o.newest;
    };
    same_sync = refl;
    same_drops = refl;
    written = sym (append-nil (contents r.disk));
    bytes = omega (arith, o.fits);
    frames = omega (arith, o.fits);
  }

  pub ensure_open-Writes :
      (r : Recorder) → CountersFit r → (r.is_open ≡ true → Open r) → Writes r [] (ensure_open os r)
  unfolding ensure_open
  ensure_open-Writes r fit known = elim (Bool-cases r.is_open) [
    | inl open_now ↦ record {
      result = r;
      runs = if_true _ _ open_now;
      wrote = unchanged r r.calls (known open_now);
    }
    | inr shut ↦
        let w = open_new_file-Writes r fit in
        record { result = w.result; runs = if_false _ _ shut ∙ w.runs; wrote = w.wrote }
  ]

  rotate_if_needed-Writes : (r : Recorder) → Open r → Writes r [] (rotate_if_needed os r)
  unfolding rotate_if_needed
  rotate_if_needed-Writes r o =
      let now = os.steady_now r.calls in
      elim (Bool-cases
        (leb r.cfg.rotate_bytes r.current_size || leb r.cfg.rotate_interval (now - r.file_start))) [
          | inl due ↦
              let w = open_new_file-Writes (record r { calls = suc r.calls }) o.fits in
              record {
                result = w.result;
                runs = if_true _ _ o.open_flag ∙ if_true _ _ due ∙ w.runs;
                wrote = Wrote-trans [] [] (unchanged r (suc r.calls) o) w.wrote;
              }
          | inr not_due ↦ record {
            result = record r { calls = suc r.calls };
            runs = if_true _ _ o.open_flag ∙ if_false _ _ not_due;
            wrote = unchanged r (suc r.calls) o;
          }
        ]

  pub write_frames-Writes :
      (fs : List Frame) (r : Recorder) → Open r → Writes r fs (write_frames os fs r)
  unfolding write_frames
  write_frames-Writes [] r o = record { result = r; runs = refl; wrote = unchanged r r.calls o }
  write_frames-Writes (f ∷ fs) r o =
      let w = write_frame-Writes f r o in
      let t = rotate_if_needed-Writes w.result w.wrote.still_open in
      let l = write_frames-Writes fs t.result t.wrote.still_open in
      record {
        result = l.result;
        runs =
            ap (λ m. after m (λ _. rotate_if_needed os >> write_frames os fs)) w.runs
            ∙ ap (λ m. after m (λ _. write_frames os fs)) t.runs
            ∙ l.runs;
        wrote = Wrote-trans (f ∷ []) fs (Wrote-trans (f ∷ []) [] w.wrote t.wrote) l.wrote;
      }
