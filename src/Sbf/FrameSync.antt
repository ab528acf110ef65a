-- ===== src/Sbf/FrameSync.antt =====
-- src/sbf/frame_sync.hpp and frame_sync.cpp: `SbfFrameSync`, over indices into its buffer.
-- `none` is undefined behaviour (an index or an `erase` out of range, a failed `assert`) or fuel
-- that ran out. A 16-bit field is the sum of its two bytes, whose bits are disjoint.
pub mod Progress
pub mod Passes
pub mod Fields
pub mod Candidates
pub mod Ready
pub mod Feed
pub mod Counters
pub mod Stream
use asterx_driver.Base.{
  ℕ, zero, suc, ◌+◌, ◌-◌, ◌*◌, ◌%◌, ◌^◌, Bool, true, false, List, [], ◌∷◌, ◌++◌, Option, none, some,
  ◌>>=◌, leb, ltb, ◌==◌, if◌then◌else◌, length, get_elem?, drop, Bytes, le16, u64,
}
use asterx_driver.Sbf.Crc.{crc_ccitt_xmodem}
use asterx_driver.Sbf.Wire.{Frame, sync1, sync2, valid_length}

pub data State : Type 0 where
  idle got_dollar reading_header reading_body : State

pub record Stats : Type 0 where
  pub bytes_consumed : ℕ
  pub frames_emitted : ℕ
  pub crc_failed : ℕ
  pub length_invalid : ℕ
  pub resyncs : ℕ

pub record FrameSync : Type 0 where
  pub buf : Bytes
  pub state : State
  pub stats : Stats
  pub frame_drain : ℕ

abbrev pub zero_stats : Stats
zero_stats = record {
  bytes_consumed = 0;
  frames_emitted = 0;
  crc_failed = 0;
  length_invalid = 0;
  resyncs = 0;
}

abbrev pub fresh : FrameSync
fresh = record { buf = []; state = idle; stats = zero_stats; frame_drain = 0 }

-- `reset`: the statistics are cumulative.
pub reset : FrameSync → FrameSync
reset f = record f { buf = []; state = idle; frame_drain = 0 }

-- A 64-bit counter goes up by one, or to `a - b`.
abbrev pub bump : ℕ → ℕ
bump n = u64 (n + 1)

abbrev pub sub64 : ℕ → ℕ → ℕ
sub64 a b = u64 (a + 2 ^ 64 - b)

unfoldable pub buf_u16le : Bytes → ℕ → Option ℕ
buf_u16le d off = do lo ← get_elem? d off; hi ← get_elem? d (off + 1); some (le16 lo hi)

-- The element-by-element copy of `n` bytes from `off`, into `tmp` and into `body_bytes`.
unfoldable pub copy_range : Bytes → ℕ → ℕ → Option Bytes
copy_range d off zero = some []
copy_range d off (suc n) = do b ← get_elem? d off; rest ← copy_range d (off + 1) n; some (b ∷ rest)

-- The variables of the loop in `feed`, and the members that it writes. `buf_` stays as it is.
pub record Scan : Type 0 where
  pub state : State
  pub pos : ℕ
  pub frame_start : ℕ
  pub frame_drain : ℕ
  pub stats : Stats
  pub out : List Frame

-- A pass of the loop gives the variables and `progress`.
abbrev pub Pass : Type 0
Pass = Scan × Bool

abbrev pub count_emitted : Stats → Stats
count_emitted t = record t { frames_emitted = bump t.frames_emitted }

abbrev pub count_crc_failed : Stats → Stats
count_crc_failed t = record t { crc_failed = bump t.crc_failed; resyncs = bump t.resyncs }

abbrev pub count_length_invalid : Stats → Stats
count_length_invalid t = record t {
  length_invalid = bump t.length_invalid;
  resyncs = bump t.resyncs;
}

-- Give up the candidate at `frame_start` and scan on behind its `$`.
abbrev pub rescan : Scan → Stats → Scan
rescan s t = record s { state = idle; pos = s.frame_start + 1; frame_start = 0; stats = t }

module _ (buf : Bytes) where
  -- The inner loop of `Idle`, with `left` bytes to go.
  unfoldable pub skip_junk : ℕ → ℕ → Option ℕ
  skip_junk zero pos = some pos
  skip_junk (suc left) pos = do
    b ← get_elem? buf pos
    if b == sync1 then some pos else skip_junk left (pos + 1)

  unfoldable pub at_idle : Scan → Option Pass
  at_idle s = do
    pos ← skip_junk (length buf - s.pos) s.pos
    if ltb pos (length buf)
        then some (record s { pos = pos; frame_start = pos; state = got_dollar }, true)
        else some (record s { pos = pos }, false)

  unfoldable pub at_got_dollar : Scan → Option Pass
  at_got_dollar s = if leb (length buf) (s.frame_start + 1) then some (s, false) else do
    next ← get_elem? buf (s.frame_start + 1)
    if next == sync2
        then some (record s { pos = s.frame_start + 2; state = reading_header }, true)
        else if next == sync1
        then some (record s { frame_start = s.frame_start + 1; pos = s.frame_start + 1 }, true)
        else some (rescan s s.stats, true)

  unfoldable pub at_reading_header : Scan → Option Pass
  at_reading_header s = if ltb (length buf) (s.frame_start + 8) then some (s, false) else do
    len_field ← buf_u16le buf (s.frame_start + 6)
    if valid_length len_field
        then some (record s { pos = s.frame_start + 8; state = reading_body }, true)
        else some (rescan s (count_length_invalid s.stats), true)

  -- The frame at `frame_start` is complete: check it and emit it.
  unfoldable pub complete_frame : Scan → ℕ → Option Pass
  complete_frame s total = do
    covered ← copy_range buf (s.frame_start + 4) (sub64 total 4)
    header_crc ← buf_u16le buf (s.frame_start + 2)
    id_field ← buf_u16le buf (s.frame_start + 4)
    if crc_ccitt_xmodem covered == header_crc
        then (do
          body_bytes ← copy_range buf (s.frame_start + 8) (sub64 total 8)
          some (
            record {
              state = idle;
              pos = s.frame_start + total;
              frame_start = 0;
              frame_drain = s.frame_start + total;
              stats = count_emitted s.stats;
              out =
                  s.out
                  ++ record { crc = header_crc; raw_id = id_field; len = total; body = body_bytes }
                    ∷ [];
            },
            true,
          ))
        else some (rescan s (count_crc_failed s.stats), true)

  unfoldable pub at_reading_body : Scan → Option Pass
  at_reading_body s = do
    len_field ← buf_u16le buf (s.frame_start + 6)
    if ltb (length buf) (s.frame_start + len_field)
        then some (s, false)
        else complete_frame s len_field

  unfoldable pub pass_in : State → Scan → Option Pass
  pass_in idle s = at_idle s
  pass_in got_dollar s = at_got_dollar s
  pass_in reading_header s = at_reading_header s
  pass_in reading_body s = at_reading_body s

  -- `while (progress)`.
  unfoldable pub scan : ℕ → Scan → Option Scan
  scan zero s = none
  scan (suc fuel) s = do
    r ← pass_in s.state s
    let rest = scan fuel r.0
    if r.1 then rest else some r.0

-- `buf_.erase(buf_.begin(), buf_.begin() + n)`.
pub erase_front : ℕ → Bytes → Option Bytes
erase_front n buf = if leb n (length buf) then some (drop n buf) else none

-- Step 5 of `feed`.
pub trim_candidate : Bytes → Scan → Option (Bytes × ℕ)
unfolding erase_front
trim_candidate buf s =
    if ltb 0 s.frame_start
    then if leb s.frame_drain s.frame_start
      then (do rest ← erase_front s.frame_start buf; some (rest, 0))
      else none
    else some (buf, s.frame_drain)

pub trim_idle : Bytes → Scan → Option (Bytes × ℕ)
unfolding erase_front
trim_idle buf s =
    if s.frame_drain == 0
    then if ltb 0 s.pos
      then if leb s.pos (length buf)
        then (do rest ← erase_front s.pos buf; some (rest, s.frame_drain))
        else some (buf, s.frame_drain)
      else some (buf, s.frame_drain)
    else some (buf, s.frame_drain)

pub trim : State → Bytes → Scan → Option (Bytes × ℕ)
unfolding trim_candidate trim_idle
trim idle buf s = trim_idle buf s
trim _ buf s = trim_candidate buf s

-- Passes that any buffer of `n` bytes needs at most.
abbrev pub scan_fuel : ℕ → ℕ
scan_fuel n = 4 * n + 4

-- Steps 1 to 3 of `feed`: drain, count, append.
pub admit : FrameSync → Bytes → Option FrameSync
unfolding erase_front
admit f bytes = do
  rest ← (if ltb 0 f.frame_drain then erase_front f.frame_drain f.buf else some f.buf)
  some (record {
    buf = rest ++ bytes;
    state = f.state;
    stats = record f.stats { bytes_consumed = u64 (f.stats.bytes_consumed + length bytes) };
    frame_drain = 0;
  })

abbrev pub start_scan : FrameSync → List Frame → Scan
start_scan f out = record {
  state = f.state;
  pos = 0;
  frame_start = 0;
  frame_drain = f.frame_drain;
  stats = f.stats;
  out = out;
}

-- `feed(bytes, out)`.
unfoldable pub feed : FrameSync → Bytes → List Frame → Option (FrameSync × List Frame)
unfolding admit trim
feed f bytes out = do
  g ← admit f bytes
  s ← scan g.buf (scan_fuel (length g.buf)) (start_scan g out)
  kept ← trim s.state g.buf s
  some (record { buf = kept.0; state = s.state; stats = s.stats; frame_drain = kept.1 }, s.out)

-- One call of `feed` after another, onto one output.
unfoldable pub feed_all : FrameSync → List Bytes → List Frame → Option (FrameSync × List Frame)
feed_all f [] out = some (f, out)
feed_all f (chunk ∷ chunks) out = do r ← feed f chunk out; feed_all r.0 chunks r.1
