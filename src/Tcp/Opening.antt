-- ===== src/Tcp/Opening.antt =====
-- src/tcp_client.cpp: `connect` and `close` send and receive nothing.
use asterx_driver.Base.{ℕ, zero, suc, Option, none, some, Bytes, choice, ◌≡◌, refl}
use asterx_driver.Tcp.Sockets.{
  Net, Connected, connected, in_progress, connect_failed, Client, End, returned, thrown, exhausted,
  M, after, tick,
}
use asterx_driver.Tcp.{
  set_nonblocking, adopt, await, after_connect, try_socket, try_addresses, after_getaddrinfo,
  connect, without_socket, close, close_fd,
}

-- The client has sent and received what it had.
abbrev Idle : Bytes → Bytes → Client → Type 0
Idle sent received c = (c.sent ≡ sent) × (c.received ≡ received)

abbrev pub Opens : Bytes → Bytes → End (Unit {0}) → Type 0
Opens sent received (returned u c) = (c.sent ≡ sent) × (c.received ≡ received)
Opens sent received (thrown e c) = (c.sent ≡ sent) × (c.received ≡ received)
Opens sent received exhausted = ⊥

module _ (net : Net) (sent received : Bytes) where
  abbrev Goes : M (Unit {0}) → Type 0
  Goes m = (c : Client) → Idle sent received c → Opens sent received (m c)

  set_nonblocking-Opens : Goes (set_nonblocking net)
  unfolding set_nonblocking
  set_nonblocking-Opens c i =
      choice (Opens sent received) (net.fcntl c.calls) _ _
        (λ _. choice (Opens sent received) (net.fcntl (suc c.calls)) _ _ (λ _. i) (λ _. i)) (λ _. i)

  after-Opens :
      (e : End (Unit {0})) (k : M (Unit {0}))
      → Opens sent received e
      → Goes k
      → Opens sent received (after e (λ _. k))
  after-Opens (returned u c) k i h = h c i
  after-Opens (thrown e c) k i h = i
  after-Opens exhausted k i h = absurd i

  adopt-Opens : (s : ℕ) → Goes (adopt net s)
  unfolding adopt
  adopt-Opens s c i = after-Opens (set_nonblocking net c) _ (set_nonblocking-Opens c i) λ c' i'. i'

  after_connect-Opens :
      (r : Connected) (s : ℕ) (next : M (Unit {0})) → Goes next → Goes (after_connect net r s next)
  unfolding after_connect await
  after_connect-Opens connected s next g c i = adopt-Opens s c i
  after_connect-Opens in_progress s next g c i =
      choice (Opens sent received) (net.connect_ready c.calls) _ _ (λ _. adopt-Opens s (tick c) i)
        (λ _. g _ i)
  after_connect-Opens connect_failed s next g c i = g _ i

  try_socket-Opens :
      (socket : Option ℕ) (next : M (Unit {0})) → Goes next → Goes (try_socket net socket next)
  unfolding try_socket
  try_socket-Opens none next g c i = g c i
  try_socket-Opens (some s) next g c i =
      after-Opens (set_nonblocking net (record c { open_sockets = suc c.open_sockets })) _
        (set_nonblocking-Opens _ i)
        λ c' i'. after_connect-Opens (net.connect c'.calls) s next g (tick c') i'

  try_addresses-Opens : (addresses : ℕ) → Goes (try_addresses net addresses)
  unfolding try_addresses
  try_addresses-Opens zero c i = i
  try_addresses-Opens (suc left) c i =
      try_socket-Opens (net.socket c.calls) _ (try_addresses-Opens left) (tick c) i

  found-Opens : (found : Option ℕ) → Goes (after_getaddrinfo net found)
  unfolding after_getaddrinfo
  found-Opens none c i = i
  found-Opens (some addresses) c i = try_addresses-Opens addresses c i

  without_socket-Opens : (fd : Option ℕ) (m : M (Unit {0})) → Goes m → Goes (without_socket fd m)
  without_socket-Opens none m h c i = h c i
  without_socket-Opens (some s) m h c i = i

pub connect-Opens : (net : Net) (c : Client) → Opens c.sent c.received (connect net c)
unfolding connect
connect-Opens net c =
    without_socket-Opens net c.sent c.received c.fd _
      (λ c' i. found-Opens net c.sent c.received (net.getaddrinfo c'.calls) (tick c') i) c
      (refl, refl)

close_fd_kept :
    (fd : Option ℕ) (c : Client)
    → ((close_fd fd c).sent ≡ c.sent) × ((close_fd fd c).received ≡ c.received)
close_fd_kept none c = (refl, refl)
close_fd_kept (some s) c = (refl, refl)

pub close_kept : (c : Client) → ((close c).sent ≡ c.sent) × ((close c).received ≡ c.received)
unfolding close
close_kept c = close_fd_kept c.fd c
