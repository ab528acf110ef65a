-- ===== src/Main/Loop.antt =====
-- src/main.cpp: the recorder loop, from the bytes received to the bytes on the disk.
use mathlib.Core.List.{append_assoc, append-nil}
use mathlib.Core.Path.{subst}
use native.Mathlib.Nat.{add-zero}
use native.Mathlib.Decide.{dec_lt}
use asterx_driver.Base.{
  ℕ, zero, suc, ◌+◌, ◌≤◌, ◌<◌, true, false, List, [], ◌∷◌, ◌++◌, Bytes, length, length-append,
  choice, ◌≡◌, refl, sym, ap, ◌∙◌, arith,
}
use asterx_driver.Sbf.Wire.{Frame}
use asterx_driver.Sbf.Decoder.{stay, Decodes}
use asterx_driver.Sbf.Decoder.Laws.{Decodes-append}
use asterx_driver.Recorder as Recording
use asterx_driver.Recorder.{Recorder, Outcome, record_bytes}
use asterx_driver.Recorder.Wrote.{Reliable, contents, wires, wires-append}
use asterx_driver.Recorder.Session.{Live, Recorded, record_bytes-Recorded}
use asterx_driver.Tcp.Sockets as Sockets
use asterx_driver.Tcp.Sockets.{Client, exhausted}
use asterx_driver.Tcp.Read.{Takes, read_some-Takes}
use asterx_driver.Main.Session.{
  Environment, LoopEnd, stopped, broken, looping, faulty, after_record, after_read, receive_loop,
}

-- The bytes that a client received since `d` went to the recorder: the decoder, which kept `rest` of
-- the `fed` bytes before, reads frames from them, and their bytes are on the disk behind those of `r`.
pub record Delivers (d : Client) (r : Recorder) (fed : ℕ) (rest : Bytes) (d' : Client)
    (r' : Recorder) : Type 0 where
  pub bytes : Bytes
  pub frames : List Frame
  pub rest' : Bytes
  pub received : d'.received ≡ d.received ++ bytes
  pub decodes : Decodes (rest ++ bytes) frames rest'
  pub written : contents r'.disk ≡ contents r.disk ++ wires frames
  pub live : Live r' (fed + length bytes) rest'

abbrev pub LoopDelivers : Client → Recorder → ℕ → Bytes → LoopEnd → Type 0
LoopDelivers d r fed rest (stopped d' r') = Delivers d r fed rest d' r'
LoopDelivers d r fed rest (broken d' r') = ⊥
LoopDelivers d r fed rest looping = Unit
LoopDelivers d r fed rest faulty = ⊥

nothing-Delivers :
    (d : Client) (r : Recorder) (fed : ℕ) (rest : Bytes) (d' : Client)
    → Live r fed rest
    → d'.received ≡ d.received
    → Delivers d r fed rest d' r
nothing-Delivers d r fed rest d' v e = record {
  bytes = [];
  frames = [];
  rest' = rest;
  received = e ∙ sym (append-nil d.received);
  decodes = rw (append-nil rest) (record { path = stay refl; stuck = v.ready.held.stuck });
  written = sym (append-nil (contents r.disk));
  live = subst (λ n. Live r n rest) (sym (add-zero fed)) v;
}

module _ (env : Environment) (rel : Reliable env.os) where
  -- A chunk that was recorded, and what the loop does after it.
  chunk-Delivers :
      (d d1 : Client) (r : Recorder) (fed : ℕ) (rest chunk : Bytes) (m : Outcome (Unit {0}))
      (one : Recorded env.os rel r fed rest chunk m) (e : LoopEnd)
      → d1.received ≡ d.received ++ chunk
      → LoopDelivers d1 one.result (fed + length chunk) one.rest' e
      → LoopDelivers d r fed rest e
  chunk-Delivers d d1 r fed rest chunk m one (stopped d' r') got later =
      let all = chunk ++ later.bytes in
      let sum : fed + length chunk + length later.bytes ≡ fed + length all =
        omega (arith, length-append chunk later.bytes) in
      record {
        bytes = all;
        frames = one.frames ++ later.frames;
        rest' = later.rest';
        received =
            later.received
            ∙ ap (λ s. s ++ later.bytes) got
            ∙ append_assoc d.received chunk later.bytes;
        decodes =
            rw (← append_assoc rest chunk later.bytes)
              (Decodes-append later.bytes one.decodes later.decodes);
        written =
            later.written
            ∙ ap (λ s. s ++ wires later.frames) one.written
            ∙ append_assoc (contents r.disk) (wires one.frames) (wires later.frames)
            ∙ ap (λ s. contents r.disk ++ s) (sym (wires-append one.frames later.frames));
        live = subst (λ n. Live r' n later.rest') sum later.live;
      }
  chunk-Delivers d d1 r fed rest chunk m one (broken d' r') got later = later
  chunk-Delivers d d1 r fed rest chunk m one looping got later = tt
  chunk-Delivers d d1 r fed rest chunk m one faulty got later = later

  abbrev Goes : (Client → Recorder → LoopEnd) → Type 0
  Goes k =
      (d : Client) (r : Recorder) (fed : ℕ) (rest : Bytes)
      → Live r fed rest
      → LoopDelivers d r fed rest (k d r)

  after_read-Delivers :
      (k : Client → Recorder → LoopEnd) (d : Client) (r : Recorder) (fed : ℕ) (rest : Bytes)
      (e : Sockets.End Bytes)
      → Goes k
      → Live r fed rest
      → Takes 65536 d e
      → LoopDelivers d r fed rest (after_read env k r e)
  after_read-Delivers k d r fed rest (Sockets.returned [] d') g v (le, t) =
      nothing-Delivers d r fed rest d' v (t ∙ append-nil d.received)
  after_read-Delivers k d r fed rest (Sockets.returned (b ∷ bytes) d') g v (le, t) =
      let one = record_bytes-Recorded env.os rel (b ∷ bytes) r fed rest v in
      chunk-Delivers d d' r fed rest (b ∷ bytes) _ one _ t (
        subst
          (λ m.
            LoopDelivers d' one.result (fed + length (b ∷ bytes)) one.rest'
              (after_record env k d' m))
          (sym one.runs) (g d' one.result (fed + length (b ∷ bytes)) one.rest' one.live))
  after_read-Delivers k d r fed rest (Sockets.thrown x d') g v t =
      nothing-Delivers d r fed rest d' v t
  after_read-Delivers k d r fed rest exhausted g v t = absurd t

  pub receive_loop-Delivers : (fuel n : ℕ) → Goes (receive_loop env fuel n)
  unfolding receive_loop
  receive_loop-Delivers zero n d r fed rest v = tt
  receive_loop-Delivers (suc fuel) n d r fed rest v =
      choice (LoopDelivers d r fed rest) (env.g_stop n) _ _
        (λ _. nothing-Delivers d r fed rest d v refl)
        (λ _.
          after_read-Delivers (receive_loop env fuel (n + 1)) d r fed rest _
            (receive_loop-Delivers fuel (n + 1)) v (read_some-Takes env.data_net 65536 10000 d))

-- Whether the loop has ended.
abbrev pub IsOver : LoopEnd → Type 0
IsOver looping = ⊥
IsOver _ = Unit

module _ (env : Environment) where
  after_record-IsOver :
      (k : Client → Recorder → LoopEnd) (d : Client) (m : Outcome (Unit {0}))
      → ((d : Client) (r : Recorder) → IsOver (k d r))
      → IsOver (after_record env k d m)
  after_record-IsOver k d (Recording.ok u r) h = h d r
  after_record-IsOver k d (Recording.thrown e r) h = tt
  after_record-IsOver k d Recording.fault h = tt

  after_read-IsOver :
      (k : Client → Recorder → LoopEnd) (d : Client) (r : Recorder) (e : Sockets.End Bytes)
      → ((d : Client) (r : Recorder) → IsOver (k d r))
      → Takes 65536 d e
      → IsOver (after_read env k r e)
  after_read-IsOver k d r (Sockets.returned [] d') h t = tt
  after_read-IsOver k d r (Sockets.returned (b ∷ bytes) d') h t =
      after_record-IsOver k d' (record_bytes env.os (b ∷ bytes) r) h
  after_read-IsOver k d r (Sockets.thrown x d') h t = tt
  after_read-IsOver k d r exhausted h t = absurd t

  -- A reading without the signal is not the one with it.
  signalled : (n m : ℕ) → env.g_stop m ≡ true → env.g_stop n ≡ false → n ≤ m → n + 1 ≤ m
  signalled n m h h' lo = elim (dec_lt n m) [
    | yes below ↦ omega arith
    | no same ↦ absurd (let e : n ≡ m = omega arith in let h'' = ap env.g_stop e in cc)
  ]

  -- A signal that has come at the `m`-th reading ends the loop by then.
  pub receive_loop-IsOver :
      (fuel n m : ℕ) (d : Client) (r : Recorder)
      → env.g_stop m ≡ true
      → n ≤ m
      → m < n + fuel
      → IsOver (receive_loop env fuel n d r)
  unfolding receive_loop
  receive_loop-IsOver zero n m d r h lo hi = absurd (omega arith)
  receive_loop-IsOver (suc fuel) n m d r h lo hi =
      choice IsOver (env.g_stop n) _ _ (λ _. tt)
        λ go_on.
          let later : n + 1 ≤ m = signalled n m h go_on lo in
          after_read-IsOver (receive_loop env fuel (n + 1)) d r _
            (λ d' r'. receive_loop-IsOver fuel (n + 1) m d' r' h later (omega arith))
            (read_some-Takes env.data_net 65536 10000 d)
