-- ===== src/Tcp/Read.antt =====
-- src/tcp_client.cpp: what `read_until` and `read_exact` return, and that they end.
use asterx_driver.Base.{
  ℕ, zero, suc, ◌-◌, ◌≤◌, ◌<◌, min, true, false, [], ◌∷◌, ◌++◌, Option, none, some, leb, leb→le,
  leb→gt, choice, length, length-append, contains, Bytes, ◌≡◌, refl, sym, ap, ◌∙◌, ◌⊎◌, inl, inr,
  arith,
}
use mathlib.Core.List.{append_assoc, append-nil}
use asterx_driver.Tcp.Sockets.{
  Net, Polled, ready, timed_out, poll_interrupted, poll_failed, Received, arrived, recv_interrupted,
  recv_failed, Client, End, returned, thrown, exhausted, M, after, tick,
}
use asterx_driver.Tcp.{
  after_recv, after_poll, read_some, before_deadline, grow, exact_loop, read_exact, until_loop,
  read_until, with_socket,
}

-- A read that got `acc` together with the bytes before it, or that lost bytes it had got. `Got` is
-- what holds of the one, `Lost` of the other.
abbrev pub Reads : (Bytes → Client → Type 0) → (Bytes → Type 0) → Bytes → End Bytes → Type 0
Reads Got Lost before (returned acc c) = Got acc c × (c.received ≡ before ++ acc)
Reads Got Lost before (thrown e c) = (lost : Bytes) × Lost lost × (c.received ≡ before ++ lost)
Reads Got Lost before exhausted = ⊥

-- `read_some` takes at most `size` bytes, and none when it throws.
abbrev pub Takes : ℕ → Client → End Bytes → Type 0
Takes size c (returned got c') = (length got ≤ size) × (c'.received ≡ c.received ++ got)
Takes size c (thrown e c') = c'.received ≡ c.received
Takes size c exhausted = ⊥

module _ (net : Net) where
  after_recv-Takes :
      (r : Received) (size : ℕ) (c : Client)
      → ((bytes : Bytes) → r ≡ arrived bytes → length bytes ≤ size)
      → Takes size c (after_recv r c)
  unfolding after_recv
  after_recv-Takes (arrived bytes) size c h = (h bytes refl, refl)
  after_recv-Takes recv_interrupted size c h = (omega arith, sym (append-nil c.received))
  after_recv-Takes recv_failed size c h = refl

  after_poll-Takes : (p : Polled) (size : ℕ) (c : Client) → Takes size c (after_poll net p size c)
  unfolding after_poll
  after_poll-Takes ready size c =
      after_recv-Takes (net.recv c.calls size) size (tick c) (net.recv-le c.calls size)
  after_poll-Takes timed_out size c = refl
  after_poll-Takes poll_interrupted size c = (omega arith, sym (append-nil c.received))
  after_poll-Takes poll_failed size c = refl

  with_socket-Takes :
      (fd : Option ℕ) (size : ℕ) (m : M Bytes) (c : Client)
      → Takes size c (m c)
      → Takes size c (with_socket fd m c)
  with_socket-Takes none size m c h = refl
  with_socket-Takes (some s) size m c h = h

  pub read_some-Takes :
      (size timeout : ℕ) (c : Client) → Takes size c (read_some net size timeout c)
  unfolding read_some
  read_some-Takes size timeout c =
      with_socket-Takes c.fd size _ c (after_poll-Takes (net.poll c.calls timeout) size (tick c))

  -- What `read_some` gives is what its call of `recv`, the last call of all, brought.
  abbrev Brings : ℕ → End Bytes → Type 0
  Brings size (returned [] c) = Unit
  Brings size (returned (b ∷ got) c) =
      (call : ℕ) × (c.calls ≡ suc call) × (net.recv call size ≡ arrived (b ∷ got))
  Brings size (thrown e c) = Unit
  Brings size exhausted = Unit

  after_recv-Brings :
      (r : Received) (size : ℕ) (c : Client)
      → net.recv c.calls size ≡ r
      → Brings size (after_recv r (tick c))
  unfolding after_recv
  after_recv-Brings (arrived []) size c e = tt
  after_recv-Brings (arrived (b ∷ got)) size c e = (c.calls, refl, e)
  after_recv-Brings recv_interrupted size c e = tt
  after_recv-Brings recv_failed size c e = tt

  after_poll-Brings : (p : Polled) (size : ℕ) (c : Client) → Brings size (after_poll net p size c)
  unfolding after_poll
  after_poll-Brings ready size c = after_recv-Brings (net.recv c.calls size) size c refl
  after_poll-Brings timed_out size c = tt
  after_poll-Brings poll_interrupted size c = tt
  after_poll-Brings poll_failed size c = tt

  with_socket-Brings :
      (fd : Option ℕ) (size : ℕ) (m : M Bytes) (c : Client)
      → Brings size (m c)
      → Brings size (with_socket fd m c)
  with_socket-Brings none size m c h = tt
  with_socket-Brings (some s) size m c h = h

  read_some-Brings : (size timeout : ℕ) (c : Client) → Brings size (read_some net size timeout c)
  unfolding read_some
  read_some-Brings size timeout c =
      with_socket-Brings c.fd size _ c (after_poll-Brings (net.poll c.calls timeout) size (tick c))

  module _ (Got : Bytes → Client → Type 0) (Lost : Bytes → Type 0) (before : Bytes) where
    -- The bytes that came are appended to those that a loop has.
    grow-Reads :
        (k : Bytes → M Bytes) (size : ℕ) (acc : Bytes) (c : Client) (e : End Bytes)
        → Lost acc
        → c.received ≡ before ++ acc
        → Takes size c e
        → Brings size e
        → ((b : ℕ) (got : Bytes) (c' : Client)
            → length (b ∷ got) ≤ size
            → Brings size (returned (b ∷ got) c')
            → c'.received ≡ before ++ (acc ++ b ∷ got)
            → Reads Got Lost before (k (acc ++ b ∷ got) c'))
        → Reads Got Lost before (after e (grow k acc))
    unfolding grow
    grow-Reads k size acc c (returned [] c') lost r (_, t) from hk =
        (acc, lost, t ∙ append-nil c.received ∙ r)
    grow-Reads k size acc c (returned (b ∷ got) c') lost r (le, t) from hk =
        hk b got c' le from (t ∙ ap (λ x. x ++ (b ∷ got)) r ∙ append_assoc before acc (b ∷ got))
    grow-Reads k size acc c (thrown x c') lost r t from hk = (acc, lost, t ∙ r)
    grow-Reads k size acc c exhausted lost r t from hk = absurd t

    before_deadline-Reads :
        (deadline : ℕ) (k : ℕ → M Bytes) (acc : Bytes) (c : Client)
        → Lost acc
        → c.received ≡ before ++ acc
        → ((remaining : ℕ) → Reads Got Lost before (k remaining (tick c)))
        → Reads Got Lost before (before_deadline net deadline k c)
    unfolding before_deadline
    before_deadline-Reads deadline k acc c lost r hk =
        choice (Reads Got Lost before) (leb deadline (net.steady_now c.calls)) _ _
          (λ _. (acc, lost, r)) (λ _. hk _)

-- What `read_until` gives: the bytes up to those of the last call of `recv`, which brought the end of
-- the terminator, at most `max_bytes`. What it loses when it throws holds no terminator.
abbrev pub Newest : Net → Bytes → Bytes → Client → Type 0
Newest net terminator acc c =
    (acc ≡ [])
    ⊎ ((front : Bytes) × (last : Bytes) × (call : ℕ) × (size : ℕ) × (acc ≡ front ++ last)
        × (c.calls ≡ suc call)
        × (net.recv call size ≡ arrived last)
        × (contains terminator front ≡ false))

abbrev pub Ended : Net → Bytes → ℕ → Bytes → Client → Type 0
Ended net terminator max_bytes acc c =
    (contains terminator acc ≡ true) × (length acc ≤ max_bytes) × Newest net terminator acc c

abbrev pub Unended : Bytes → ℕ → Bytes → Type 0
Unended terminator max_bytes lost = (contains terminator lost ≡ false) × (length lost ≤ max_bytes)

module _ (net : Net) (terminator : Bytes) (max_bytes : ℕ) where
  until_loop-Reads :
      (fuel deadline : ℕ) (before acc : Bytes) (c : Client)
      → max_bytes - length acc < fuel
      → length acc ≤ max_bytes
      → Newest net terminator acc c
      → c.received ≡ before ++ acc
      → Reads
          (Ended net terminator max_bytes)
          (Unended terminator max_bytes)
          before
          (until_loop net fuel terminator max_bytes deadline acc c)
  unfolding until_loop
  until_loop-Reads zero deadline before acc c f l n r = absurd (omega arith)
  until_loop-Reads (suc fuel) deadline before acc c f l n r =
      let E = Ended net terminator max_bytes in
      let U = Unended terminator max_bytes in
      let loop = until_loop net fuel terminator max_bytes deadline in
      let size = min 512 (max_bytes - length acc) in
      choice (λ (m : M Bytes). Reads E U before (m c)) (contains terminator acc) _ _
        (λ yes. ((yes, l, n), r))
        (λ no.
          choice (λ (m : M Bytes). Reads E U before (m c)) (leb max_bytes (length acc)) _ _
            (λ _. (acc, (no, l), r))
            (λ more.
              before_deadline-Reads net E U before deadline _ acc c (no, l) r
                λ remaining.
                  grow-Reads net E U before loop size acc (tick c) _ (no, l) r
                    (read_some-Takes net size remaining (tick c))
                    (read_some-Brings net size remaining (tick c))
                    λ b got c' le (call, e, e') r'.
                      until_loop-Reads fuel deadline before (acc ++ b ∷ got) c'
                        (omega
                          (arith, leb→gt max_bytes (length acc) more, length-append acc (b ∷ got)))
                        (omega
                          (arith, leb→gt max_bytes (length acc) more, length-append acc (b ∷ got)))
                        (inr (acc, b ∷ got, call, size, refl, e, e', no)) r'))

  -- `read_until` ends. If it returns, it returns the bytes that it received: at most `max_bytes`
  -- with the terminator in them, and, unless there are none, without the terminator in front of those
  -- that the last call, a `recv`, brought. If it throws, the bytes that it received are at most
  -- `max_bytes` and hold no terminator.
  pub read_until-Reads :
      (timeout : ℕ) (c : Client)
      → Reads
          (Ended net terminator max_bytes)
          (Unended terminator max_bytes)
          c.received
          (read_until net terminator timeout max_bytes c)
  unfolding read_until
  read_until-Reads timeout c =
      until_loop-Reads _ _ c.received [] (tick c) (omega arith) (omega arith) (inl refl)
        (sym (append-nil c.received))

module _ (net : Net) (size : ℕ) where
  exact_loop-Reads :
      (fuel deadline : ℕ) (before acc : Bytes) (c : Client)
      → size - length acc < fuel
      → length acc ≤ size
      → c.received ≡ before ++ acc
      → Reads
          (λ acc c. length acc ≡ size)
          (λ lost. length lost < size)
          before
          (exact_loop net fuel size deadline acc c)
  unfolding exact_loop
  exact_loop-Reads zero deadline before acc c f l r = absurd (omega arith)
  exact_loop-Reads (suc fuel) deadline before acc c f l r =
      let E = λ (acc : Bytes) (c : Client). length acc ≡ size in
      let U = λ (lost : Bytes). length lost < size in
      choice (λ (m : M Bytes). Reads E U before (m c)) (leb size (length acc)) _ _
        (λ full. (omega (arith, leb→le size (length acc) full), r))
        (λ more.
          let lt = leb→gt size (length acc) more in
          before_deadline-Reads net E U before deadline _ acc c lt r λ remaining.
            grow-Reads net E U before (exact_loop net fuel size deadline) (size - length acc) acc
              (tick c) _ lt r (read_some-Takes net (size - length acc) remaining (tick c))
              (read_some-Brings net (size - length acc) remaining (tick c))
              λ b got c' le from r'.
                exact_loop-Reads fuel deadline before (acc ++ b ∷ got) c'
                  (omega (arith, length-append acc (b ∷ got)))
                  (omega (arith, length-append acc (b ∷ got))) r')

  -- `read_exact` ends. If it returns, it returns the next `size` bytes that it received; if it
  -- throws, it received fewer.
  pub read_exact-Reads :
      (timeout : ℕ) (c : Client)
      → Reads
          (λ acc c. length acc ≡ size)
          (λ lost. length lost < size)
          c.received
          (read_exact net size timeout c)
  unfolding read_exact
  read_exact-Reads timeout c =
      exact_loop-Reads _ _ c.received [] (tick c) (omega arith) (omega arith)
        (sym (append-nil c.received))
