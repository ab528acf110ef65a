-- ===== src/Tcp/Connect.antt =====
-- src/tcp_client.cpp: the sockets that `connect` opens and closes.
use asterx_driver.Base.{ℕ, zero, suc, Option, none, some, choice, ◌≡◌, refl, sym, ap, ◌∙◌, arith}
use asterx_driver.Tcp.Sockets.{
  Net, Connected, connected, in_progress, connect_failed, Client, TcpError, End, returned, thrown,
  exhausted, M, after, tick, fcntl_error,
}
use asterx_driver.Tcp.{
  set_nonblocking, adopt, await, after_connect, try_socket, try_addresses, after_getaddrinfo,
  connect, without_socket,
}

-- How many sockets are open after an error, of `n` before: one that is no client's may be left.
abbrev pub open_after : TcpError → ℕ → ℕ
open_after fcntl_error n = suc n
open_after _ n = n

-- With `n` sockets open and the client's descriptor `fd` before.
abbrev pub Connects : ℕ → Option ℕ → End (Unit {0}) → Type 0
Connects n fd (returned a c) = (s : ℕ) × (c.fd ≡ some s) × (c.open_sockets ≡ suc n)
Connects n fd (thrown e c) = (c.fd ≡ fd) × (c.open_sockets ≡ open_after e n)
Connects n fd exhausted = ⊥

abbrev Keeps : Client → End (Unit {0}) → Type 0
Keeps c (returned a c') = (c'.fd ≡ c.fd) × (c'.open_sockets ≡ c.open_sockets)
Keeps c (thrown e c') = (e ≡ fcntl_error) × (c'.fd ≡ c.fd) × (c'.open_sockets ≡ c.open_sockets)
Keeps c exhausted = ⊥

module _ (net : Net) where
  set_nonblocking-Keeps : (c : Client) → Keeps c (set_nonblocking net c)
  unfolding set_nonblocking
  set_nonblocking-Keeps c =
      choice (Keeps c) (net.fcntl c.calls) _ _
        (λ _.
          choice (Keeps c) (net.fcntl (suc c.calls)) _ _ (λ _. (refl, refl))
            (λ _. (refl, refl, refl)))
        (λ _. (refl, refl, refl))

  after-Connects :
      (n : ℕ) (fd : Option ℕ) (c : Client) (e : End (Unit {0})) (k : M (Unit {0}))
      → c.fd ≡ fd
      → c.open_sockets ≡ suc n
      → Keeps c e
      → ((c' : Client) → c'.fd ≡ fd → c'.open_sockets ≡ suc n → Connects n fd (k c'))
      → Connects n fd (after e (λ _. k))
  after-Connects n fd c (returned a c') k f o (f', o') hk = hk c' (f' ∙ f) (o' ∙ o)
  after-Connects n fd c (thrown e c') k f o (is, f', o') hk =
      (f' ∙ f, o' ∙ o ∙ sym (ap (λ x. open_after x n) is))
  after-Connects n fd c exhausted k f o h hk = absurd h

  adopt-Connects :
      (n : ℕ) (fd : Option ℕ) (s : ℕ) (c : Client)
      → c.fd ≡ fd
      → c.open_sockets ≡ suc n
      → Connects n fd (adopt net s c)
  unfolding adopt
  adopt-Connects n fd s c f o =
      after-Connects n fd c (set_nonblocking net c) _ f o (set_nonblocking-Keeps c)
        λ c' f' o'. (s, refl, o')

  -- Trying the other addresses, with no socket open for this one.
  abbrev Goes : ℕ → Option ℕ → M (Unit {0}) → Type 0
  Goes n fd next = (c : Client) → c.fd ≡ fd → c.open_sockets ≡ n → Connects n fd (next c)

  after_connect-Connects :
      (n : ℕ) (fd : Option ℕ) (r : Connected) (s : ℕ) (next : M (Unit {0})) (c : Client)
      → Goes n fd next
      → c.fd ≡ fd
      → c.open_sockets ≡ suc n
      → Connects n fd (after_connect net r s next c)
  unfolding after_connect await
  after_connect-Connects n fd connected s next c g f o = adopt-Connects n fd s c f o
  after_connect-Connects n fd in_progress s next c g f o =
      choice (Connects n fd) (net.connect_ready c.calls) _ _
        (λ _. adopt-Connects n fd s (tick c) f o) (λ _. g _ f (omega (arith, o)))
  after_connect-Connects n fd connect_failed s next c g f o = g _ f (omega (arith, o))

  try_socket-Connects :
      (n : ℕ) (fd : Option ℕ) (socket : Option ℕ) (next : M (Unit {0})) (c : Client)
      → Goes n fd next
      → c.fd ≡ fd
      → c.open_sockets ≡ n
      → Connects n fd (try_socket net socket next c)
  unfolding try_socket
  try_socket-Connects n fd none next c g f o = g c f o
  try_socket-Connects n fd (some s) next c g f o =
      let opened : Client = record c { open_sockets = suc c.open_sockets } in
      after-Connects n fd opened (set_nonblocking net opened) _ f (ap suc o)
        (set_nonblocking-Keeps opened)
        λ c' f' o'. after_connect-Connects n fd (net.connect c'.calls) s next (tick c') g f' o'

  try_addresses-Connects :
      (n : ℕ) (fd : Option ℕ) (addresses : ℕ) → Goes n fd (try_addresses net addresses)
  unfolding try_addresses
  try_addresses-Connects n fd zero c f o = (f, o)
  try_addresses-Connects n fd (suc left) c f o =
      try_socket-Connects n fd (net.socket c.calls) _ (tick c) (try_addresses-Connects n fd left) f
        o

  found-Connects :
      (found : Option ℕ) (c : Client) → Connects c.open_sockets c.fd (after_getaddrinfo net found c)
  unfolding after_getaddrinfo
  found-Connects none c = (refl, refl)
  found-Connects (some addresses) c =
      try_addresses-Connects c.open_sockets c.fd addresses c refl refl

  without_socket-Connects :
      (fd : Option ℕ) (m : M (Unit {0})) (c : Client)
      → Connects c.open_sockets c.fd (m c)
      → Connects c.open_sockets c.fd (without_socket fd m c)
  without_socket-Connects none m c h = h
  without_socket-Connects (some s) m c h = (refl, refl)

  -- If `connect` returns, the client has a descriptor and one more socket is open: those of the
  -- addresses that failed are closed. If it throws, the client's descriptor is as it was and no more
  -- sockets are open, except that a failure of `fcntl` leaves one open that is no client's.
  pub connect-Connects : (c : Client) → Connects c.open_sockets c.fd (connect net c)
  unfolding connect
  connect-Connects c =
      without_socket-Connects c.fd _ c (found-Connects (net.getaddrinfo c.calls) (tick c))
