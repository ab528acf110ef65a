-- ===== src/Ntrip/Sending.antt =====
-- src/ntrip/ins401_ntrip_client.cpp: what `SendRequest` and `SendGGA` put out.
use mathlib.Core.List.{append_assoc, append-nil}
use mathlib.Core.Path.{subst}
use asterx_driver.Base.{
  ℕ, zero, suc, ◌+◌, ◌≤◌, Bool, true, false, [], ◌∷◌, ◌++◌, Bytes, text, length, length-drop, take,
  drop, take-append-drop, ltb, ltb→ge, ltb→lt, ◌<◌, ◌==◌, ==_iff, choice, ◌≡◌, refl, sym, ap, ◌∙◌,
  arith,
}
use asterx_driver.Receiver.Commands.{is_empty}
use asterx_driver.Ntrip.Request.{
  Options, build_http_request, Sent, put, send_again, send_failed, Peer, End, returned, thrown,
  exhausted, fail_with, after_send, last_or, complete_line, after_gga, send_loop, send_request,
  send_gga,
}

abbrev pub Part : Bytes → Bytes → Type 0
Part all begun = (rest : Bytes) × (begun ++ rest ≡ all)

-- All of it, or a first part of it.
abbrev pub Puts : Bytes → End Bool → Type 0
Puts all (returned true sent calls) = sent ≡ all
Puts all (returned false sent calls) = Part all sent
Puts all (thrown sent calls) = Part all sent
Puts all exhausted = ⊥

fail_with-Puts :
    (all sent : Bytes) (enable_rtk : Bool) (calls : ℕ)
    → Part all sent
    → Puts all (fail_with enable_rtk false sent calls)
fail_with-Puts all sent enable_rtk calls part =
    choice (Puts all) enable_rtk _ _ (λ _. part) (λ _. part)

after_send-Puts :
    (all p sent : Bytes) (enable_rtk : Bool) (k : Bytes → Bytes → ℕ → End Bool) (calls : ℕ)
    (answer : Sent)
    → sent ++ p ≡ all
    → ((n : ℕ) → Puts all (k (drop (suc n) p) (sent ++ take (suc n) p) calls))
    → Puts all (after_send enable_rtk k p sent calls answer)
after_send-Puts all p sent enable_rtk k calls (put zero) e h =
    fail_with-Puts all sent enable_rtk calls (p, e)
after_send-Puts all p sent enable_rtk k calls (put (suc n)) e h = h n
after_send-Puts all p sent enable_rtk k calls send_again e h =
    fail_with-Puts all sent enable_rtk calls (p, e)
after_send-Puts all p sent enable_rtk k calls send_failed e h =
    fail_with-Puts all sent enable_rtk calls (p, e)

module _ (peer : Peer) (enable_rtk : Bool) where
  send_loop-Puts :
      (fuel : ℕ) (p sent all : Bytes) (calls : ℕ)
      → sent ++ p ≡ all
      → length p ≤ fuel
      → Puts all (send_loop peer enable_rtk fuel p sent calls)
  unfolding send_loop
  send_loop-Puts fuel [] sent all calls e enough = sym (append-nil sent) ∙ e
  send_loop-Puts zero (b ∷ p) sent all calls e enough = absurd (omega arith)
  send_loop-Puts (suc fuel) (b ∷ p) sent all calls e enough =
      after_send-Puts all (b ∷ p) sent enable_rtk (send_loop peer enable_rtk fuel) (suc calls)
        (peer.send calls (b ∷ p)) e
        λ n.
          send_loop-Puts fuel (drop n p) (sent ++ b ∷ take n p) all (suc calls)
            (append_assoc sent (b ∷ take n p) (drop n p)
              ∙ ap (λ x. sent ++ b ∷ x) (take-append-drop n p)
              ∙ e)
            (omega (arith, length-drop n p))

  -- `SendRequest` ends. When it returns true it has put out the whole request for the mount point,
  -- and otherwise a first part of it.
  pub send_request-Puts :
      (base64_encode : Bytes → Bytes) (o : Options) (gga : Bytes) (calls : ℕ)
      → Puts
          (build_http_request base64_encode o gga (text "/" ++ o.mount_point))
          (send_request peer enable_rtk base64_encode o gga calls)
  unfolding send_request
  send_request-Puts base64_encode o gga calls =
      let request = build_http_request base64_encode o gga (text "/" ++ o.mount_point) in
      send_loop-Puts (length request) request [] request calls refl (omega arith)

-- The last byte of a text.
abbrev pub EndsWith : ℕ → Bytes → Type 0
EndsWith c s = (front : Bytes) × (s ≡ front ++ c ∷ [])

-- A text, and that text with the end of its line completed.
pub data Completes (gga : Bytes) : Bytes → Type 0 where
  ended : EndsWith b'\n' gga → Completes gga gga
  returning : EndsWith b'\r' gga → Completes gga (gga ++ text "\n")
  unfinished : ¬ EndsWith b'\n' gga → ¬ EndsWith b'\r' gga → Completes gga (gga ++ text "\r\n")

last_or_ends : (b c : ℕ) (s : Bytes) → last_or b s ≡ c → EndsWith c (b ∷ s)
last_or_ends b c [] e = ([], ap (λ x. x ∷ []) e)
last_or_ends b c (b' ∷ s) e = let (front, e') = last_or_ends b' c s e in (b ∷ front, ap (◌∷◌ b) e')

last_or-++ : (d c : ℕ) (front : Bytes) → last_or d (front ++ c ∷ []) ≡ c
last_or-++ d c [] = refl
last_or-++ d c (b ∷ front) = last_or-++ b c front

not_EndsWith : (c : ℕ) (s : Bytes) → (last_or 0 s == c) ≡ false → ¬ EndsWith c s
not_EndsWith c s h (front, e) =
    let e' : last_or 0 s ≡ c = ap (last_or 0) e ∙ last_or-++ 0 c front in
    let h' : (last_or 0 s == c) ≡ true = (==_iff (last_or 0 s) c).1 e' in absurd (cc)

ends_with : (c : ℕ) (s : Bytes) → ¬ (0 ≡ c) → (last_or 0 s == c) ≡ true → EndsWith c s
ends_with c [] n h = absurd (n ((==_iff 0 c).0 h))
ends_with c (b ∷ s) n h = last_or_ends b c s ((==_iff (last_or b s) c).0 h)

complete_line-Completes : (gga : Bytes) → Completes gga (complete_line gga)
complete_line-Completes gga =
    choice (Completes gga) (last_or 0 gga == b'\n') _ _
      (λ h. ended (ends_with b'\n' gga (omega arith) h))
      (λ h.
        choice (Completes gga) (last_or 0 gga == b'\r') _ _
          (λ h'. returning (ends_with b'\r' gga (omega arith) h'))
          (λ h'. unfinished (not_EndsWith b'\n' gga h) (not_EndsWith b'\r' gga h')))

-- A call of `SendData` that put out nothing and let `SendGGA` go on.
abbrev pub NothingPut : Bool → Sent → Type 0
NothingPut enable_rtk (put zero) = Unit
NothingPut enable_rtk (put (suc n)) = ⊥
NothingPut enable_rtk send_again = Unit
NothingPut enable_rtk send_failed = enable_rtk ≡ false

-- How `SendGGA` ends: too early, without a position, with a part of its line put out, with nothing put
-- out, or with an exception.
pub data Throttled (peer : Peer) (enable_rtk : Bool) (interval now last : ℕ) (gga : Bytes)
    (calls : ℕ) : End ℕ → Type 0 where
  too_early :
      now < last + interval
      → Throttled peer enable_rtk interval now last gga calls (returned last [] calls)
  without_position :
      last + interval ≤ now
      → gga ≡ []
      → Throttled peer enable_rtk interval now last gga calls (returned now [] calls)
  put_out :
      (line : Bytes) (n : ℕ)
      → last + interval ≤ now
      → ¬ (gga ≡ [])
      → Completes gga line
      → peer.send calls line ≡ put (suc n)
      → Throttled peer enable_rtk interval now last gga calls
          (returned now (take (suc n) line) (suc calls))
  nothing_put :
      (line : Bytes)
      → last + interval ≤ now
      → ¬ (gga ≡ [])
      → Completes gga line
      → NothingPut enable_rtk (peer.send calls line)
      → Throttled peer enable_rtk interval now last gga calls (returned last [] (suc calls))
  failing :
      (line : Bytes)
      → last + interval ≤ now
      → ¬ (gga ≡ [])
      → Completes gga line
      → peer.send calls line ≡ send_failed
      → enable_rtk ≡ true
      → Throttled peer enable_rtk interval now last gga calls (thrown [] (suc calls))

is_empty-true : (s : Bytes) → is_empty s ≡ true → s ≡ []
is_empty-true [] h = refl
is_empty-true (b ∷ s) h = absurd (cc)

is_empty-false : (s : Bytes) → is_empty s ≡ false → ¬ (s ≡ [])
is_empty-false s h e = let h' : is_empty s ≡ true = ap is_empty e in absurd (cc)

module _ (peer : Peer) (enable_rtk : Bool) (interval now last : ℕ) (gga : Bytes) (calls : ℕ) where
  after_gga-Throttled :
      (line : Bytes) (answer : Sent)
      → peer.send calls line ≡ answer
      → last + interval ≤ now
      → ¬ (gga ≡ [])
      → Completes gga line
      → Throttled peer enable_rtk interval now last gga calls
          (after_gga enable_rtk now last line [] (suc calls) answer)
  after_gga-Throttled line (put zero) e late some_gga c =
      nothing_put line late some_gga c (subst (NothingPut enable_rtk) (sym e) tt)
  after_gga-Throttled line (put (suc n)) e late some_gga c = put_out line n late some_gga c e
  after_gga-Throttled line send_again e late some_gga c =
      nothing_put line late some_gga c (subst (NothingPut enable_rtk) (sym e) tt)
  after_gga-Throttled line send_failed e late some_gga c =
      choice (Throttled peer enable_rtk interval now last gga calls) enable_rtk _ _
        (λ h. failing line late some_gga c e h)
        (λ h. nothing_put line late some_gga c (subst (NothingPut enable_rtk) (sym e) h))

  -- `SendGGA` makes no call before the interval since the last time is over, which stays. After that an
  -- empty position sends nothing and makes the time now. Any other position is sent in one call, with the
  -- end of its line completed: the time becomes now when that call puts out at least one byte, which are
  -- the first bytes of the line, and otherwise it stays and nothing is put out, with an exception when
  -- the call failed and `enable_rtk` is set.
  pub send_gga-Throttled :
      Throttled peer enable_rtk interval now last gga calls
        (send_gga peer enable_rtk interval now last gga calls)
  unfolding send_gga
  send_gga-Throttled =
      let P : End ℕ → Type 0 = Throttled peer enable_rtk interval now last gga calls in
      choice P (ltb now (last + interval)) _ _ (λ h. too_early (ltb→lt now (last + interval) h))
        (λ h.
          let late = ltb→ge now (last + interval) h in
          choice P (is_empty gga) _ _ (λ h'. without_position late (is_empty-true gga h'))
            (λ h'.
              after_gga-Throttled (complete_line gga) (peer.send calls (complete_line gga)) refl
                late (is_empty-false gga h') (complete_line-Completes gga)))
