-- ===== src/Ntrip/Untouched.antt =====
-- src/ntrip/ins401_ntrip_client.cpp: making the connection does not use it.
use asterx_driver.Base.{
  ℕ, zero, suc, ◌+◌, Bool, true, false, Option, none, some, choice, ◌≡◌, refl, ◌∙◌,
}
use asterx_driver.Ntrip.Lifecycle.{
  Net, Connection, Made, returned, thrown, exhausted, close_descriptor, tick, set_up, after_socket,
  create_socket, after_create, stands, try_addresses, after_addresses, after_lookup, connect_socket,
}

-- The calls that use the connection, and the mark of `Disconnect`.
abbrev pub kept : Connection → ℕ × Bool
kept s = (s.peer_calls, s.is_disconnected)

-- A method that ended with these two as they were.
abbrev pub Keeps : ℕ × Bool → Made → Type 0
Keeps n (returned ok t) = kept t ≡ n
Keeps n (thrown t) = kept t ≡ n
Keeps n exhausted = ⊥

abbrev Leaves : ℕ × Bool → Bool × Connection → Type 0
Leaves n (ok, t) = kept t ≡ n

pub closed_calls : (fd : Option ℕ) (s : Connection) → kept (close_descriptor fd s) ≡ kept s
closed_calls none s = refl
closed_calls (some fd) s = refl

module _ (net : Net) where
  set_up-Leaves : (left : ℕ) (s : Connection) → Leaves (kept s) (set_up net left s)
  unfolding set_up
  set_up-Leaves zero s = refl
  set_up-Leaves (suc left) s =
      choice (Leaves (kept s)) (net.setup s.calls) _ _ (λ _. set_up-Leaves left (tick s))
        (λ _.
          choice (λ (t : Connection). kept t ≡ kept s) net.guard_closes _ _ (λ _. refl) (λ _. refl))

  after_socket-Leaves : (fd : Option ℕ) (s : Connection) → Leaves (kept s) (after_socket net fd s)
  after_socket-Leaves none s = refl
  after_socket-Leaves (some fd) s =
      set_up-Leaves 7 (record s { socket_fd = some fd; is_open = true })

  after_create-Leaves :
      (n : ℕ × Bool) (next : Connection → Bool × Connection) (r : Bool × Connection)
      → ((t : Connection) → kept t ≡ n → Leaves n (next t))
      → Leaves n r
      → Leaves n (after_create net next r)
  after_create-Leaves n next (false, t) h e = h t e
  after_create-Leaves n next (true, t) h e =
      choice (Leaves n) (stands net (net.connect t.calls) (suc t.calls)) _ _ (λ _. e)
        (λ _.
          h (close_descriptor t.socket_fd (record t { calls = t.calls + 2 }))
            (closed_calls t.socket_fd (record t { calls = t.calls + 2 }) ∙ e))

  create_socket-Leaves :
      (n : ℕ × Bool) (s : Connection) → kept s ≡ n → Leaves n (create_socket net s)
  create_socket-Leaves n s e =
      let s' = close_descriptor s.socket_fd s in
      let e' : kept s' ≡ n = closed_calls s.socket_fd s ∙ e in
      at_calls (after_socket net (net.socket s'.calls) (tick s')) (kept s') n
        (after_socket-Leaves (net.socket s'.calls) (tick s')) e'
    where
      at_calls : (r : Bool × Connection) (m n : ℕ × Bool) → Leaves m r → m ≡ n → Leaves n r
      at_calls (ok, t) m n h e = h ∙ e

  try_addresses-Leaves :
      (left : ℕ) (n : ℕ × Bool) (s : Connection) → kept s ≡ n → Leaves n (try_addresses net left s)
  unfolding try_addresses
  try_addresses-Leaves zero n s e = e
  try_addresses-Leaves (suc left) n s e =
      after_create-Leaves n (try_addresses net left) (create_socket net s)
        (try_addresses-Leaves left n) (create_socket-Leaves n s e)

  after_addresses-Keeps :
      (enable_rtk : Bool) (n : ℕ × Bool) (r : Bool × Connection)
      → Leaves n r
      → Keeps n (after_addresses net enable_rtk r)
  after_addresses-Keeps enable_rtk n (true, t) e = e
  after_addresses-Keeps enable_rtk n (false, t) e =
      choice (Keeps n) enable_rtk _ _ (λ _. e) (λ _. e)

  after_lookup-Keeps :
      (enable_rtk : Bool) (found : Option ℕ) (s : Connection)
      → Keeps (kept s) (after_lookup net enable_rtk found s)
  after_lookup-Keeps enable_rtk none s =
      choice (Keeps (kept s)) enable_rtk _ _ (λ _. refl) (λ _. refl)
  after_lookup-Keeps enable_rtk (some addresses) s =
      after_addresses-Keeps enable_rtk (kept s) (try_addresses net addresses s)
        (try_addresses-Leaves addresses (kept s) s refl)

  pub connect_socket-Keeps :
      (enable_rtk : Bool) (s : Connection) → Keeps (kept s) (connect_socket net enable_rtk s)
  unfolding connect_socket
  connect_socket-Keeps enable_rtk s =
      after_lookup-Keeps enable_rtk (net.getaddrinfo s.calls) (tick s)
