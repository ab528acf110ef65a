-- ===== src/Tcp/Kept.antt =====
-- src/tcp_client.cpp: reading sends nothing.
use asterx_driver.Base.{
  ℕ, zero, suc, ◌-◌, ◌/◌, min, [], ◌∷◌, ◌++◌, Option, none, some, leb, choice, contains, length,
  Bytes, ◌≡◌, refl,
}
use mathlib.Core.Path.{subst}
use asterx_driver.Tcp.Sockets.{
  Net, Polled, ready, timed_out, poll_interrupted, poll_failed, Received, arrived, recv_interrupted,
  recv_failed, Client, End, returned, thrown, exhausted, M, after, tick,
}
use asterx_driver.Tcp.{
  after_recv, after_poll, read_some, before_deadline, grow, until_loop, read_until, with_socket,
}

abbrev pub Keeps : Bytes → End Bytes → Type 0
Keeps sent (returned got c) = c.sent ≡ sent
Keeps sent (thrown e c) = c.sent ≡ sent
Keeps sent exhausted = Unit

after_recv-Keeps : (r : Received) (c : Client) → Keeps c.sent (after_recv r c)
unfolding after_recv
after_recv-Keeps (arrived bytes) c = refl
after_recv-Keeps recv_interrupted c = refl
after_recv-Keeps recv_failed c = refl

with_socket-Keeps :
    (fd : Option ℕ) (m : M Bytes) (c : Client)
    → Keeps c.sent (m c)
    → Keeps c.sent (with_socket fd m c)
with_socket-Keeps none m c h = refl
with_socket-Keeps (some s) m c h = h

grow-Keeps :
    (k : Bytes → M Bytes) (acc sent : Bytes) (e : End Bytes)
    → Keeps sent e
    → ((acc' : Bytes) (c : Client) → c.sent ≡ sent → Keeps sent (k acc' c))
    → Keeps sent (after e (grow k acc))
unfolding grow
grow-Keeps k acc sent (returned [] c) s h = s
grow-Keeps k acc sent (returned (b ∷ got) c) s h = h (acc ++ b ∷ got) c s
grow-Keeps k acc sent (thrown e c) s h = s
grow-Keeps k acc sent exhausted s h = tt

module _ (net : Net) where
  after_poll-Keeps : (p : Polled) (size : ℕ) (c : Client) → Keeps c.sent (after_poll net p size c)
  unfolding after_poll
  after_poll-Keeps ready size c = after_recv-Keeps (net.recv c.calls size) (tick c)
  after_poll-Keeps timed_out size c = refl
  after_poll-Keeps poll_interrupted size c = refl
  after_poll-Keeps poll_failed size c = refl

  pub read_some-Keeps :
      (size timeout : ℕ) (c : Client) → Keeps c.sent (read_some net size timeout c)
  unfolding read_some
  read_some-Keeps size timeout c =
      with_socket-Keeps c.fd _ c (after_poll-Keeps (net.poll c.calls timeout) size (tick c))

  -- The milliseconds left.
  abbrev left : ℕ → Client → ℕ
  left deadline c = (deadline - net.steady_now c.calls) / 1000000

  until_loop-Keeps :
      (fuel : ℕ) (terminator : Bytes) (max_bytes deadline : ℕ) (acc : Bytes) (c : Client)
      {sent : Bytes}
      → c.sent ≡ sent
      → Keeps sent (until_loop net fuel terminator max_bytes deadline acc c)
  unfolding until_loop before_deadline
  until_loop-Keeps zero terminator max_bytes deadline acc c s = tt
  until_loop-Keeps (suc fuel) terminator max_bytes deadline acc c {sent} s =
      choice (λ (m : M Bytes). Keeps sent (m c)) (contains terminator acc) _ _ (λ _. s)
        λ _.
          choice (λ (m : M Bytes). Keeps sent (m c)) (leb max_bytes (length acc)) _ _ (λ _. s)
            λ _.
              choice (Keeps sent) (leb deadline (net.steady_now c.calls)) _ _ (λ _. s)
                λ _.
                  grow-Keeps (until_loop net fuel terminator max_bytes deadline) acc sent _
                    (subst
                      (λ t. Keeps t (
                        read_some net (min 512 (max_bytes - length acc)) (left deadline c)
                          (tick c)))
                      s (read_some-Keeps _ _ (tick c)))
                    λ acc' c' s'. until_loop-Keeps fuel terminator max_bytes deadline acc' c' s'

  pub read_until-Keeps :
      (terminator : Bytes) (timeout max_bytes : ℕ) (c : Client)
      → Keeps c.sent (read_until net terminator timeout max_bytes c)
  unfolding read_until
  read_until-Keeps terminator timeout max_bytes c =
      until_loop-Keeps _ terminator max_bytes _ [] (tick c) refl
