-- ===== src/Sbf/FrameSync/Counters.antt =====
-- The counters of `FrameSyncStats`.
use mathlib.Core.List.{flatten}
use mathlib.Core.Path.{subst, subst₂}
use asterx_driver.Base.{
  ℕ, zero, suc, ◌+◌, ◌%◌, ◌^◌, ◌<◌, true, false, List, [], ◌∷◌, ◌++◌, ◌≡◌, sym, ◌∙◌, arith, length,
  length-append, Bytes, Option, none, some, Bool-cases, Option-cases, >>=-eq-some, ltb, inl, inr,
}
use asterx_driver.Sbf.Wire.{Frame}
use asterx_driver.Sbf.FrameSync.{
  State, idle, got_dollar, reading_header, reading_body, Stats, FrameSync, Scan, Pass, buf_u16le,
  fresh, feed, feed_all, scan, pass_in, at_idle, at_got_dollar, at_reading_header, at_reading_body,
  complete_frame, admit, trim, start_scan, scan_fuel,
}

-- Each failure is one resynchronization, and only `feed` itself counts bytes.
pub record Balanced (consumed : ℕ) (t : Stats) : Type 0 where
  pub bytes : t.bytes_consumed ≡ consumed % 2 ^ 64
  pub failures : t.resyncs ≡ (t.crc_failed + t.length_invalid) % 2 ^ 64
  pub crc_fits : t.crc_failed < 2 ^ 64
  pub length_fits : t.length_invalid < 2 ^ 64

-- The statistics in the result of a pass, if there is one.
abbrev PassBalanced : ℕ → Option Pass → Type 0
PassBalanced n none = Unit {0}
PassBalanced n (some (s, b)) = Balanced n s.stats

module _ (buf : Bytes) (n : ℕ) (s : Scan) (b : Balanced n s.stats) where
  at_idle_balanced : PassBalanced n (at_idle buf s)
  unfolding at_idle
  at_idle_balanced = ground arith

  at_got_dollar_balanced : PassBalanced n (at_got_dollar buf s)
  unfolding at_got_dollar
  at_got_dollar_balanced = ground arith

  at_reading_header_balanced : PassBalanced n (at_reading_header buf s)
  unfolding at_reading_header
  at_reading_header_balanced = ground arith

  complete_frame_balanced : (total : ℕ) → PassBalanced n (complete_frame buf s total)
  unfolding complete_frame
  complete_frame_balanced total = ground arith

  at_reading_body_balanced : PassBalanced n (at_reading_body buf s)
  unfolding at_reading_body
  at_reading_body_balanced = elim (Option-cases (buf_u16le buf (s.frame_start + 6))) [
    | inl fault ↦ rw fault tt
    | inr (len, read) ↦ rw read (elim (Bool-cases (ltb (length buf) (s.frame_start + len))) [
      | inl short ↦ rw short b
      | inr enough ↦ rw enough (complete_frame_balanced len)
    ])
  ]

pass_balanced :
    (buf : Bytes) (n : ℕ) (st : State) (s : Scan)
    → Balanced n s.stats
    → PassBalanced n (pass_in buf st s)
unfolding pass_in
pass_balanced buf n idle s b = at_idle_balanced buf n s b
pass_balanced buf n got_dollar s b = at_got_dollar_balanced buf n s b
pass_balanced buf n reading_header s b = at_reading_header_balanced buf n s b
pass_balanced buf n reading_body s b = at_reading_body_balanced buf n s b

module _ (buf : Bytes) (n : ℕ) where
  -- One round of the loop, from the result `r` of its pass.
  abbrev round : ℕ → Option Pass → Option Scan
  round fuel none = none
  round fuel (some (s, true)) = scan buf fuel s
  round fuel (some (s, false)) = some s

  scan-round : (fuel : ℕ) (s : Scan) → scan buf (suc fuel) s ≡ round fuel (pass_in buf s.state s)
  unfolding scan
  scan-round fuel s = elim (Option-cases (pass_in buf s.state s)) [
    | inl e ↦ rw e
    | inr ((s', b), e) ↦ rw e (elim (Bool-cases b) [ inl more ↦ rw more | inr done ↦ rw done ])
  ]

  round-Balanced :
      (fuel : ℕ) (r : Option Pass) (t : Scan)
      → PassBalanced n r
      → ((s' : Scan) → Balanced n s'.stats → scan buf fuel s' ≡ some t → Balanced n t.stats)
      → round fuel r ≡ some t
      → Balanced n t.stats
  round-Balanced fuel none t b ih e = cc
  round-Balanced fuel (some (s, true)) t b ih e = ih s b e
  round-Balanced fuel (some (s, false)) t b ih e =
      let same : s ≡ t = cc in subst (λ k. Balanced n k.stats) same b

  scan-Balanced :
      (fuel : ℕ) (s t : Scan) → Balanced n s.stats → scan buf fuel s ≡ some t → Balanced n t.stats
  unfolding scan
  scan-Balanced zero s t b e = cc
  scan-Balanced (suc fuel) s t b e =
      round-Balanced fuel (pass_in buf s.state s) t (pass_balanced buf n s.state s b)
        (λ s' b'. scan-Balanced fuel s' t b') (sym (scan-round fuel s) ∙ e)

admit-Balanced :
    (f g : FrameSync) (n : ℕ) (bytes : Bytes)
    → Balanced n f.stats
    → admit f bytes ≡ some g
    → Balanced (n + length bytes) g.stats
unfolding admit
admit-Balanced f g n bytes b e = ground arith

pub feed-Balanced :
    (f g : FrameSync) (n : ℕ) (bytes : Bytes) (out fs : List Frame)
    → Balanced n f.stats
    → feed f bytes out ≡ some (g, fs)
    → Balanced (n + length bytes) g.stats
unfolding feed
feed-Balanced f g n bytes out fs b e =
    let (h, admitted, rest) = >>=-eq-some (admit f bytes) _ e in
    let (s, scanned, rest') =
      >>=-eq-some (scan h.buf (scan_fuel (length h.buf)) (start_scan h out)) _ rest in
    let (kept, trimmed, last) = >>=-eq-some (trim s.state h.buf s) _ rest' in
    let after =
      scan-Balanced h.buf (n + length bytes) (scan_fuel (length h.buf)) (start_scan h out) s
        (admit-Balanced f h n bytes b admitted) scanned in
    let same : s.stats ≡ g.stats = cc in subst (Balanced (n + length bytes)) same after

feed_all_from-Balanced :
    (chunks : List Bytes) (f g : FrameSync) (n : ℕ) (out fs : List Frame)
    → Balanced n f.stats
    → feed_all f chunks out ≡ some (g, fs)
    → Balanced (n + length (flatten chunks)) g.stats
unfolding feed_all flatten
feed_all_from-Balanced [] f g n out fs b e =
    let same : f ≡ g = cc in
    let sum : n ≡ n + 0 = omega arith in subst₂ (λ k (h : FrameSync). Balanced k h.stats) sum same b
feed_all_from-Balanced (chunk ∷ chunks) f g n out fs b e =
    let (r, fed, later) = >>=-eq-some (feed f chunk out) _ e in
    let all =
      feed_all_from-Balanced chunks r.0 g (n + length chunk) r.1 fs
        (feed-Balanced f r.0 n chunk out r.1 b fed) later in
    let sum : n + length chunk + length (flatten chunks) ≡ n + length (chunk ++ flatten chunks) =
      omega (arith, length-append chunk (flatten chunks)) in
    rw (← sum) all

-- After any chunks `bytes_consumed` is the number of bytes fed, and `resyncs` the number of failed
-- checksums and invalid lengths together, both modulo 2^64.
pub feed_all-Balanced :
    (chunks : List Bytes) (f : FrameSync) (frames : List Frame)
    → feed_all fresh chunks [] ≡ some (f, frames)
    → Balanced (length (flatten chunks)) f.stats
feed_all-Balanced chunks f frames e =
    let start : Balanced 0 fresh.stats = omega arith in
    let all = feed_all_from-Balanced chunks fresh f 0 [] frames start e in
    let sum : 0 + length (flatten chunks) ≡ length (flatten chunks) = omega arith in rw (← sum) all
