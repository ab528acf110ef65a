-- ===== src/Tcp/Write.antt =====
-- src/tcp_client.cpp: what `write_all` sends, and that it ends when interruptions do.
use asterx_driver.Base.{
  ℕ, zero, suc, ◌+◌, ◌-◌, ◌≤◌, ◌<◌, [], ◌∷◌, ◌++◌, Option, none, some, ◌==◌, length, take, drop,
  length-drop, take-append-drop, Bytes, choice, ◌≡◌, refl, sym, ap, ◌∙◌, arith,
}
use mathlib.Core.Path.{subst}
use mathlib.Core.List.{append_assoc, append-nil}
use asterx_driver.Tcp.Sockets.{
  Net, Sent, accepted, send_interrupted, send_failed, Client, TcpError, End, returned, thrown,
  exhausted, M, tick, not_open, peer_closed, send_error,
}
use asterx_driver.Tcp.{with_socket, after_send, write_loop, write_all}

-- What was sent: all of `p`, or a first part of it when an exception ends the method.
abbrev pub Writes : Bytes → Bytes → End (Unit {0}) → Type 0
Writes before p (returned a c) = c.sent ≡ before ++ p
Writes before p (thrown e c) =
    (begun : Bytes) × (rest : Bytes) × (begun ++ rest ≡ p) × (c.sent ≡ before ++ begun)
Writes before p exhausted = ⊥

-- What comes behind bytes that were sent.
Writes-append :
    (before q p : Bytes) (e : End (Unit {0})) → Writes (before ++ q) p e → Writes before (q ++ p) e
Writes-append before q p (returned a c) h = h ∙ append_assoc before q p
Writes-append before q p (thrown x c) (begun, rest, split, h) = (
  q ++ begun,
  rest,
  append_assoc q begun rest ∙ ap (λ s. q ++ s) split,
  h ∙ append_assoc before q begun,
)
Writes-append before q p exhausted h = absurd h

nothing-Writes : (p : Bytes) (e : TcpError) (c : Client) → Writes c.sent p (thrown e c)
nothing-Writes p e c = ([], p, refl, sym (append-nil c.sent))

accepted-Writes :
    (k : Bytes → M (Unit {0})) (p : Bytes) (n : ℕ) (c : Client)
    → ((c' : Client) → c'.calls ≡ c.calls → 0 < n → Writes c'.sent (drop n p) (k (drop n p) c'))
    → Writes c.sent p (after_send (accepted n) k p c)
unfolding after_send
accepted-Writes k p n c hk =
    choice (Writes c.sent p) (n == 0) _ _ (λ _. nothing-Writes p peer_closed c)
      (λ some_sent.
        let positive : 0 < n = ground arith in
        let c' : Client = record c { sent = c.sent ++ take n p } in
        subst (λ q. Writes c.sent q (k (drop n p) c')) (take-append-drop n p)
          (Writes-append c.sent (take n p) (drop n p) _ (hk c' refl positive)))

-- `send` is not interrupted any more from the call `quiet` on.
abbrev pub QuietFrom : ℕ → Net → Type 0
QuietFrom quiet net = (call : ℕ) (p : Bytes) → net.send call p ≡ send_interrupted → call < quiet

module _ (net : Net) where
  interrupted :
      (fuel b : ℕ) (p : Bytes) (c : Client)
      → Writes c.sent (b ∷ p) (write_loop net fuel (b ∷ p) (tick c))
      → Writes c.sent (b ∷ p) (after_send send_interrupted (write_loop net fuel) (b ∷ p) (tick c))
  unfolding after_send
  interrupted fuel b p c w = w

  failed :
      (fuel b : ℕ) (p : Bytes) (c : Client)
      → Writes c.sent (b ∷ p) (after_send send_failed (write_loop net fuel) (b ∷ p) (tick c))
  unfolding after_send
  failed fuel b p c = nothing-Writes (b ∷ p) send_error (tick c)

module _ (net : Net) (quiet : ℕ) (h : QuietFrom quiet net) where
  answered-Writes :
      (answer : Sent) (fuel : ℕ) (b : ℕ) (p : Bytes) (c : Client)
      → net.send c.calls (b ∷ p) ≡ answer
      → (quiet - c.calls) + suc (length p) ≤ suc fuel
      → ((q : Bytes) (c' : Client)
          → (quiet - c'.calls) + length q ≤ fuel
          → Writes c'.sent q (write_loop net fuel q c'))
      → Writes c.sent (b ∷ p) (after_send answer (write_loop net fuel) (b ∷ p) (tick c))
  answered-Writes (accepted n) fuel b p c e f hk =
      accepted-Writes (write_loop net fuel) (b ∷ p) n (tick c) λ c' same positive.
        hk (drop n (b ∷ p)) c' (omega (arith, same, positive, f, length-drop n (b ∷ p)))
  answered-Writes send_interrupted fuel b p c e f hk =
      interrupted net fuel b p c (hk (b ∷ p) (tick c) (omega (arith, h c.calls (b ∷ p) e)))
  answered-Writes send_failed fuel b p c e f hk = failed net fuel b p c

  write_loop-Writes :
      (fuel : ℕ) (p : Bytes) (c : Client)
      → (quiet - c.calls) + length p ≤ fuel
      → Writes c.sent p (write_loop net fuel p c)
  unfolding write_loop
  write_loop-Writes fuel [] c f = sym (append-nil c.sent)
  write_loop-Writes zero (b ∷ p) c f = absurd (omega arith)
  write_loop-Writes (suc fuel) (b ∷ p) c f =
      answered-Writes (net.send c.calls (b ∷ p)) fuel b p c refl f (write_loop-Writes fuel)

  with_socket-Writes :
      (fd : Option ℕ) (m : M (Unit {0})) (p : Bytes) (c : Client)
      → Writes c.sent p (m c)
      → Writes c.sent p (with_socket fd m c)
  with_socket-Writes none m p c w = nothing-Writes p not_open c
  with_socket-Writes (some s) m p c w = w

  -- If `send` is not interrupted from the call `quiet` on, and the fuel covers the calls before it
  -- and the bytes, `write_all` ends. If it returns, it has sent the buffer, each byte once and in
  -- order; if it throws, it has sent a first part of it.
  pub write_all-Writes :
      (fuel : ℕ) (buf : Bytes) (c : Client)
      → (quiet - c.calls) + length buf ≤ fuel
      → Writes c.sent buf (write_all net fuel buf c)
  unfolding write_all
  write_all-Writes fuel buf c f =
      with_socket-Writes c.fd (write_loop net fuel buf) buf c (write_loop-Writes fuel buf c f)
