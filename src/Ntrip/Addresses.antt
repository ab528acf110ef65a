-- ===== src/Ntrip/Addresses.antt =====
-- src/ntrip/ins401_ntrip_client.cpp: what `ConnectSocket` tries.
use mathlib.Core.Path.{subst}
use asterx_driver.Base.{
  ℕ, zero, suc, ◌+◌, Bool, true, false, Option, none, some, choice, ◌≡◌, refl, sym,
}
use asterx_driver.Ntrip.Lifecycle.{
  Net, Connection, tick, close_descriptor, set_up, after_socket, create_socket, stands,
  after_create, try_addresses,
}

abbrev pub HasSocket : Option ℕ → Type 0
HasSocket none = ⊥
HasSocket (some fd) = Unit

-- Without a descriptor nothing is open.
abbrev pub Coherent : Option ℕ → Bool → Type 0
Coherent none is_open = is_open ≡ false
Coherent (some fd) is_open = Unit

abbrev pub Stands : Connection → Type 0
Stands s = HasSocket s.socket_fd × (s.is_open ≡ true)

-- A client that is connected has an open socket.
abbrev pub LiveIf : Bool → Connection → Type 0
LiveIf true s = Stands s
LiveIf false s = Coherent s.socket_fd s.is_open

pub any-Coherent : (fd : Option ℕ) (is_open : Bool) → HasSocket fd → Coherent fd is_open
any-Coherent none is_open h = absurd h
any-Coherent (some fd) is_open h = tt

-- A step on a client that is not connected: the socket stands after a success, and what is left is
-- coherent otherwise.
abbrev pub Tries : Bool × Connection → Type 0
Tries (true, t) = Stands t × (t.is_connected ≡ false)
Tries (false, t) = Coherent t.socket_fd t.is_open × (t.is_connected ≡ false)

abbrev pub Idle : Connection → Type 0
Idle s = Coherent s.socket_fd s.is_open × (s.is_connected ≡ false)

pub closed-Idle :
    (fd : Option ℕ) (s : Connection)
    → s.socket_fd ≡ fd
    → Idle s
    → ((close_descriptor fd s).socket_fd ≡ none)
      × ((close_descriptor fd s).is_open ≡ false)
      × ((close_descriptor fd s).is_connected ≡ false)
closed-Idle none s e (c, n) = (e, subst (λ f. Coherent f s.is_open) e c, n)
closed-Idle (some fd) s e (c, n) = (refl, refl, n)

nothing-Idle :
    (s : Connection) → s.socket_fd ≡ none → s.is_open ≡ false → s.is_connected ≡ false → Idle s
nothing-Idle s e e' n = (subst (λ f. Coherent f s.is_open) (sym e) e', n)

module _ (net : Net) where
  set_up-Tries :
      (left : ℕ) (s : Connection) → Stands s → s.is_connected ≡ false → Tries (set_up net left s)
  unfolding set_up
  set_up-Tries zero s st n = (st, n)
  set_up-Tries (suc left) s (has, up) n =
      choice Tries (net.setup s.calls) _ _ (λ _. set_up-Tries left (tick s) (has, up) n)
        (λ _.
          choice (λ (t : Connection). Idle t) net.guard_closes _ _
            (λ _. (any-Coherent s.socket_fd false has, n))
            (λ _. (any-Coherent s.socket_fd s.is_open has, n)))

  after_socket-Tries : (fd : Option ℕ) (s : Connection) → Idle s → Tries (after_socket net fd s)
  after_socket-Tries none s i = i
  after_socket-Tries (some fd) s (c, n) =
      set_up-Tries 7 (record s { socket_fd = some fd; is_open = true }) (tt, refl) n

  create_socket-Tries : (s : Connection) → Idle s → Tries (create_socket net s)
  create_socket-Tries s i =
      let s' = close_descriptor s.socket_fd s in
      let (e, e', n) = closed-Idle s.socket_fd s refl i in
      after_socket-Tries (net.socket s'.calls) (tick s') (nothing-Idle (tick s') e e' n)

  after_create-Tries :
      (next : Connection → Bool × Connection) (r : Bool × Connection)
      → ((t : Connection) → Idle t → Tries (next t))
      → Tries r
      → Tries (after_create net next r)
  after_create-Tries next (false, s) h i = h s i
  after_create-Tries next (true, s) h ((has, up), n) =
      let s' = record s { calls = s.calls + 2 } in
      choice Tries (stands net (net.connect s.calls) (suc s.calls)) _ _ (λ _. ((has, up), n))
        (λ _.
          let (e, e', n') =
            closed-Idle s.socket_fd s' refl (any-Coherent s.socket_fd s.is_open has, n) in
          h (close_descriptor s.socket_fd s')
            (nothing-Idle (close_descriptor s.socket_fd s') e e' n'))

  pub try_addresses-Tries : (left : ℕ) (s : Connection) → Idle s → Tries (try_addresses net left s)
  unfolding try_addresses
  try_addresses-Tries zero s i = i
  try_addresses-Tries (suc left) s i =
      after_create-Tries (try_addresses net left) (create_socket net s) (try_addresses-Tries left)
        (create_socket-Tries s i)
