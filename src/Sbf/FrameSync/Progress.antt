-- ===== src/Sbf/FrameSync/Progress.antt =====
-- How far a scan of the buffer has come: what holds at every pass of the loop of `feed`.
use mathlib.Core.List.{append-nil, append_assoc}
use mathlib.Core.Path.{subst}
use asterx_driver.Base.{
  ℕ, suc, ◌+◌, ◌-◌, ◌*◌, ◌%◌, ◌^◌, ◌≤◌, ◌<◌, true, false, List, [], ◌∷◌, ◌++◌, ◌≡◌, refl, sym, ap,
  ◌∙◌, arith, drop, length, length-append, length-drop, drop-drop, Bytes, le16, Option, none, some,
}
use asterx_driver.Sbf.Wire.{Frame, junk, more, whole, parse_frame, sync1, sync2, valid_length}
use asterx_driver.Sbf.Decoder.{Reads, stay, skip, emit}
use asterx_driver.Sbf.Decoder.Laws.{Reads-trans, parse_frame_len}
use asterx_driver.Sbf.FrameSync.{
  State, idle, got_dollar, reading_header, reading_body, Scan, Pass, bump,
}

-- The index up to which the buffer is dealt with.
abbrev pub anchor_in : State → ℕ → ℕ → ℕ
anchor_in idle pos frame_start = pos
anchor_in got_dollar pos frame_start = frame_start
anchor_in reading_header pos frame_start = frame_start
anchor_in reading_body pos frame_start = frame_start

-- A complete header at the front of the bytes, with an admissible length.
pub record Header (u : Bytes) : Type 0 where
  pub c0 : ℕ
  pub c1 : ℕ
  pub i0 : ℕ
  pub i1 : ℕ
  pub l0 : ℕ
  pub l1 : ℕ
  pub rest : Bytes
  pub splits : u ≡ sync1 ∷ sync2 ∷ c0 ∷ c1 ∷ i0 ∷ i1 ∷ l0 ∷ l1 ∷ rest
  pub valid : valid_length (le16 l0 l1) ≡ true

-- What a state has seen of the candidate.
abbrev pub Shape : State → Bytes → Type 0
Shape idle u = Unit {0}
Shape got_dollar u = (v : Bytes) × (u ≡ sync1 ∷ v)
Shape reading_header u = (v : Bytes) × (u ≡ sync1 ∷ sync2 ∷ v)
Shape reading_body u = Header u

abbrev pub rank : State → ℕ
rank idle = 3
rank got_dollar = 2
rank reading_header = 1
rank reading_body = 0

module _ (buf : Bytes) (before : List Frame) (counted : ℕ) where
  -- Up to index `a` the buffer is read as the decoder reads it; `out` and `count` have its frames.
  pub record Progress (a drain : ℕ) (out : List Frame) (count : ℕ) : Type 0 where
    pub ahead : a ≤ length buf
    pub drained : drain ≤ a
    pub skipped : Reads (drop drain buf) [] (drop a buf)
    pub frames : List Frame
    pub emitted : out ≡ before ++ frames
    pub path : Reads buf frames (drop a buf)
    pub tally : count ≡ (counted + length frames) % 2 ^ 64

  pub Progress-skip :
      {a drain count b : ℕ} {out : List Frame} {v : Bytes}
      → Progress a drain out count
      → drop a buf ≡ b ∷ v
      → parse_frame (b ∷ v) ≡ junk
      → Progress (a + 1) drain out count
  Progress-skip {a} {drain} {b} {v} p e j =
      let tail : drop (a + 1) buf ≡ v = rw (drop-drop a 1 (a + 1) buf refl, e) in
      let len : length buf - a ≡ suc (length v) = sym (length-drop a buf) ∙ ap length e in
      let on : Reads (drop a buf) [] (drop (a + 1) buf) = rw (e, tail) (skip j (stay refl)) in
      record {
        ahead = omega arith;
        drained = omega (arith, p.drained);
        skipped = Reads-trans p.skipped on;
        frames = p.frames;
        emitted = p.emitted;
        path =
            subst (λ fs. Reads buf fs (drop (a + 1) buf)) (append-nil p.frames)
              (Reads-trans p.path on);
        tally = p.tally;
      }

  pub Progress-emit :
      {a drain count : ℕ} {out : List Frame} (f : Frame)
      → Progress a drain out count
      → parse_frame (drop a buf) ≡ whole f
      → Progress (a + f.len) (a + f.len) (out ++ f ∷ []) (bump count)
  Progress-emit {a} {count} {out} f p w =
      let n = parse_frame_len (drop a buf) f w in
      let on : Reads (drop a buf) (f ∷ []) (drop (a + f.len) buf) =
        emit w (stay (sym (drop-drop a f.len (a + f.len) buf refl))) in
      record {
        ahead = omega (arith, p.ahead, n.1, length-drop a buf);
        drained = omega arith;
        skipped = stay refl;
        frames = p.frames ++ f ∷ [];
        emitted = rw (p.emitted) (append_assoc before p.frames (f ∷ []));
        path = Reads-trans p.path on;
        tally = omega (arith, p.tally, length-append p.frames (f ∷ []));
      }

  -- The invariant of the loop, in state `st`.
  pub record Inv (st : State) (s : Scan) : Type 0 where
    pub in_state : s.state ≡ st
    pub progress :
        Progress (anchor_in st s.pos s.frame_start) s.frame_drain s.out s.stats.frames_emitted
    pub shape : Shape st (drop (anchor_in st s.pos s.frame_start) buf)

  abbrev pub measure : State → Scan → ℕ
  measure st s = 4 * (length buf - anchor_in st s.pos s.frame_start) + rank st

  -- In `idle` a scan ends only with the buffer.
  abbrev pub AtEnd : State → Scan → Type 0
  AtEnd idle s = s.pos ≡ length buf
  AtEnd got_dollar s = Unit {0}
  AtEnd reading_header s = Unit {0}
  AtEnd reading_body s = Unit {0}

  -- Nothing more can be said without more bytes.
  pub record Stalled (s : Scan) : Type 0 where
    pub st : State
    pub inv : Inv st s
    pub stuck : parse_frame (drop (anchor_in st s.pos s.frame_start) buf) ≡ more
    pub at_end : AtEnd st s

  pub record Moved (st : State) (s s' : Scan) : Type 0 where
    pub st' : State
    pub inv : Inv st' s'
    pub falls : measure st' s' < measure st s

  -- A pass runs without a fault, and makes progress or finds nothing more to do.
  abbrev pub Runs : State → Scan → Option Pass → Type 0
  Runs st s none = ⊥
  Runs st s (some (s', true)) = Moved st s s'
  Runs st s (some (s', false)) = Stalled s'
