-- ===== src/Tcp.antt =====
-- src/tcp_client.hpp and tcp_client.cpp: `TcpClient`, over the system calls that it makes.
-- Times are nanoseconds of the steady clock, and timeouts milliseconds.
mod Tests
pub mod Example
pub mod Sockets
pub mod Write
pub mod Read
pub mod Connect
pub mod Kept
pub mod Opening
pub mod Connection
use asterx_driver.Base.{
  ℕ, zero, suc, ◌+◌, ◌-◌, ◌*◌, ◌/◌, min, Bool, true, false, List, [], ◌∷◌, ◌++◌, Option, none, some,
  leb, ◌==◌, if◌then◌else◌, length, take, drop, contains, Bytes,
}
use asterx_driver.Tcp.Sockets.{
  Net, Sent, accepted, send_interrupted, send_failed, Polled, ready, timed_out, poll_interrupted,
  poll_failed, Received, arrived, recv_interrupted, recv_failed, Connected, connected, in_progress,
  connect_failed, Client, TcpError, not_open, already_open, no_address, cannot_connect, fcntl_error,
  send_error, peer_closed, poll_error, read_timeout, recv_error, deadline_passed, too_many_bytes,
  End, returned, thrown, exhausted, M, after, ◌>>=◌, ◌>>◌, done, throw, tick,
}

abbrev pub close_fd : Option ℕ → Client → Client
close_fd none c = c
close_fd (some s) c = record c { fd = none; open_sockets = c.open_sockets - 1 }

-- `close`: a descriptor that is open is given back.
pub close : Client → Client
close c = close_fd c.fd c

-- `if (fd_ < 0) throw`.
abbrev pub with_socket : {A : Type 0} → Option ℕ → M A → M A
with_socket none m = throw not_open
with_socket (some s) m = m

-- A loop body's answer to `send`, with the loop as `k`.
pub after_send : Sent → (Bytes → M (Unit {0})) → Bytes → M (Unit {0})
after_send (accepted n) k p c =
    let next = k (drop n p) (record c { sent = c.sent ++ take n p }) in
    if n == 0 then thrown peer_closed c else next
after_send send_interrupted k p c = k p c
after_send send_failed k p c = thrown send_error c

pub after_recv : Received → M Bytes
after_recv (arrived bytes) c = returned bytes (record c { received = c.received ++ bytes })
after_recv recv_interrupted c = returned [] c
after_recv recv_failed c = thrown recv_error c

-- What came is appended; nothing is taken for the end of the connection.
pub grow : (Bytes → M Bytes) → Bytes → Bytes → M Bytes
grow k acc [] = throw peer_closed
grow k acc (b ∷ got) = k (acc ++ b ∷ got)

abbrev pub without_socket : Option ℕ → M (Unit {0}) → M (Unit {0})
without_socket (some s) m = throw already_open
without_socket none m = m

module _ (net : Net) where
  -- `while (rem > 0)` of `write_all`.
  pub write_loop : ℕ → Bytes → M (Unit {0})
  write_loop fuel [] = done
  write_loop zero (b ∷ p) = λ c. exhausted
  write_loop (suc fuel) (b ∷ p) =
      λ c. after_send (net.send c.calls (b ∷ p)) (write_loop fuel) (b ∷ p) (tick c)

  pub write_all : ℕ → Bytes → M (Unit {0})
  write_all fuel buf c = with_socket c.fd (write_loop fuel buf) c

  pub after_poll : Polled → ℕ → M Bytes
  after_poll ready size c = after_recv (net.recv c.calls size) (tick c)
  after_poll timed_out size c = thrown read_timeout c
  after_poll poll_interrupted size c = returned [] c
  after_poll poll_failed size c = thrown poll_error c

  -- `read_some` into a buffer of `size` bytes.
  pub read_some : ℕ → ℕ → M Bytes
  read_some size io_timeout c =
      with_socket c.fd (λ c. after_poll (net.poll c.calls io_timeout) size (tick c)) c

  -- The clock is read, and the loop goes on with the time that is left.
  pub before_deadline : ℕ → (ℕ → M Bytes) → M Bytes
  before_deadline deadline k c =
      let now = net.steady_now c.calls in
      let next = k ((deadline - now) / 1000000) (tick c) in
      if leb deadline now then thrown deadline_passed (tick c) else next

  -- `while (rem > 0)` of `read_exact`, where `acc` is the filled part of the buffer.
  pub exact_loop : ℕ → ℕ → ℕ → Bytes → M Bytes
  exact_loop zero size deadline acc = λ c. exhausted
  exact_loop (suc fuel) size deadline acc =
      let next = before_deadline deadline λ remaining.
        read_some (size - length acc) remaining >>= grow (exact_loop fuel size deadline) acc in
      if leb size (length acc) then returned acc else next

  pub read_exact : ℕ → ℕ → M Bytes
  read_exact size io_timeout c =
      exact_loop (suc size) size (net.steady_now c.calls + io_timeout * 1000000) [] (tick c)

  -- `while (true)` of `read_until`.
  pub until_loop : ℕ → Bytes → ℕ → ℕ → Bytes → M Bytes
  until_loop zero terminator max_bytes deadline acc = λ c. exhausted
  until_loop (suc fuel) terminator max_bytes deadline acc =
      let next = before_deadline deadline λ remaining.
        read_some (min 512 (max_bytes - length acc)) remaining
        >>= grow (until_loop fuel terminator max_bytes deadline) acc in
      if contains terminator acc
      then returned acc
      else if leb max_bytes (length acc)
      then throw too_many_bytes
      else next

  pub read_until : Bytes → ℕ → ℕ → M Bytes
  read_until terminator total_timeout max_bytes c =
      until_loop (suc max_bytes) terminator max_bytes
        (net.steady_now c.calls + total_timeout * 1000000) [] (tick c)

  -- `set_nonblocking`: two calls of `fcntl`, each of which may fail.
  pub set_nonblocking : M (Unit {0})
  set_nonblocking c =
      let second =
        if net.fcntl (suc c.calls)
        then returned tt (tick (tick c))
        else thrown fcntl_error (tick (tick c)) in
      if net.fcntl c.calls then second else thrown fcntl_error (tick c)

  abbrev close_socket : Client → Client
  close_socket c = record c { open_sockets = c.open_sockets - 1 }

  -- The socket is made blocking again and becomes the client's.
  pub adopt : ℕ → M (Unit {0})
  adopt s = do set_nonblocking; λ c. returned tt (record c { fd = some s })

  -- What `poll` and `SO_ERROR` say of a connection in progress; `next` tries the other addresses.
  pub await : ℕ → M (Unit {0}) → M (Unit {0})
  await s next c =
      let other = next (close_socket (tick c)) in
      if net.connect_ready c.calls then adopt s (tick c) else other

  pub after_connect : Connected → ℕ → M (Unit {0}) → M (Unit {0})
  after_connect connected s next = adopt s
  after_connect in_progress s next = await s next
  after_connect connect_failed s next = λ c. next (close_socket c)

  pub try_socket : Option ℕ → M (Unit {0}) → M (Unit {0})
  try_socket none next = next
  try_socket (some s) next = do
    λ c. returned tt (record c { open_sockets = suc c.open_sockets })
    set_nonblocking
    λ c. after_connect (net.connect c.calls) s next (tick c)

  -- The loop over the addresses.
  pub try_addresses : ℕ → M (Unit {0})
  try_addresses zero = throw cannot_connect
  try_addresses (suc left) = λ c. try_socket (net.socket c.calls) (try_addresses left) (tick c)

  pub after_getaddrinfo : Option ℕ → M (Unit {0})
  after_getaddrinfo none = throw no_address
  after_getaddrinfo (some addresses) = try_addresses addresses

  pub connect : M (Unit {0})
  connect c = without_socket c.fd (λ c. after_getaddrinfo (net.getaddrinfo c.calls) (tick c)) c
