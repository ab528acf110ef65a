-- ===== src/Ntrip/Closing.antt =====
-- src/ntrip/ins401_ntrip_client.cpp: what `Disconnect` leaves behind.
use mathlib.Core.Path.{subst}
use asterx_driver.Base.{ℕ, Bool, true, false, Option, none, some, Bytes, choice, ◌≡◌, refl}
use asterx_driver.Ntrip.Request.{Options, Peer}
use asterx_driver.Ntrip.Lifecycle.{
  Net, Connection, Made, returned, thrown, exhausted, close_descriptor, connect, disconnect,
}
use asterx_driver.Ntrip.Addresses.{Coherent, LiveIf, any-Coherent, closed-Idle}
use asterx_driver.Base.{◌>>=◌, not, ap, sym, ◌∙◌}
use asterx_driver.Ntrip.Lifecycle.{
  close_connection, Joining, stopping, losing, attempting, after_attempt, stop_receiving,
}
use asterx_driver.Ntrip.Connecting.{Links, connect-Links}
use asterx_driver.Ntrip.Untouched.{closed_calls}
use asterx_driver.Ntrip.Lifecycle.{disconnect}
use asterx_driver.Ntrip.Addresses.{Coherent, LiveIf, any-Coherent, closed-Idle}
use asterx_driver.Ntrip.Marks.{Marks, connect-Marks}

-- Nothing is left open.
abbrev pub IsClosed : Connection → Type 0
IsClosed t = (t.socket_fd ≡ none) × (t.is_open ≡ false) × (t.is_connected ≡ false)

live-Coherent : (b : Bool) (s : Connection) → LiveIf b s → Coherent s.socket_fd s.is_open
live-Coherent true s (has, up) = any-Coherent s.socket_fd s.is_open has
live-Coherent false s c = c

closed_again : (fd : Option ℕ) (s : Connection) → fd ≡ none → close_descriptor fd s ≡ s
closed_again none s e = refl
closed_again (some fd) s e = absurd (cc)

abbrev pub is_linked : Made → Bool
is_linked (returned ok t) = ok
is_linked _ = false

module _ (net : Net) (peer : Peer) (base64_encode : Bytes → Bytes) (fuel : ℕ) (o : Options)
    (is_ssl : Bool) (gga : Bytes) where
  -- The attempt that the receiving thread makes after the mark was set.
  abbrev pub attempt : Connection → Made
  attempt s =
      connect net peer base64_encode fuel o is_ssl gga
        (close_connection (record s { is_disconnected = true }))

  -- Whether the receiving thread connects again meanwhile.
  abbrev pub comes_back : Bool → Joining → Connection → Bool
  comes_back true attempting s = is_linked (attempt s)
  comes_back _ _ s = false

  -- How `Disconnect` ends, and that another call then only sets the mark.
  pub data Ends (receiving : Bool) (joining : Joining) (s : Connection)
      : Option Connection → Type 0 where
    waiting :
        receiving ≡ true
        → joining ≡ attempting
        → attempt s ≡ exhausted
        → Ends receiving joining s none
    closed :
        (t : Connection)
        → IsClosed t
        → t.is_disconnected ≡ not (comes_back receiving joining s)
        → ((later : Joining)
            → disconnect net peer base64_encode fuel o is_ssl gga false later t
              ≡ some (record t { is_disconnected = true }))
        → Ends receiving joining s (some t)

  -- The same before the connection is closed.
  data Stops (receiving : Bool) (joining : Joining) (s : Connection)
      : Option Connection → Type 0 where
    no_end :
        receiving ≡ true
        → joining ≡ attempting
        → attempt s ≡ exhausted
        → Stops receiving joining s none
    stopped :
        (t : Connection)
        → Coherent t.socket_fd t.is_open
        → t.is_disconnected ≡ not (comes_back receiving joining s)
        → Stops receiving joining s (some t)

  again :
      (t : Connection) (later : Joining)
      → IsClosed t
      → disconnect net peer base64_encode fuel o is_ssl gga false later t
        ≡ some (record t { is_disconnected = true })
  unfolding disconnect
  again t later (e, e', n) =
      choice (λ r. r ≡ some (record t { is_disconnected = true })) t.is_disconnected _ _
        (λ h. ap (λ b. some (record t { is_disconnected = b })) h)
        (λ _. ap some (
          closed_again t.socket_fd (record t { is_disconnected = true; is_connected = false }) e
          ∙ ap (λ b. record t { is_disconnected = true; is_connected = b }) (sym n)))

  after_attempt-Stops :
      (s : Connection) (m : Made)
      → attempt s ≡ m
      → Links net m
      → Marks true m
      → Stops true attempting s (after_attempt net peer base64_encode fuel o is_ssl gga m)
  after_attempt-Stops s (returned true t) e ((has, up), n) mark =
      stopped t (any-Coherent t.socket_fd t.is_open has)
        (mark ∙ ap (λ m. not (is_linked m)) (sym e))
  after_attempt-Stops s (returned false t) e (fd, down, n) mark =
      stopped t (subst (λ f. Coherent f t.is_open) (sym fd) down)
        (mark ∙ ap (λ m. not (is_linked m)) (sym e))
  after_attempt-Stops s (thrown t) e (c, n) mark =
      stopped (record t { is_connected = false }) c (mark ∙ ap (λ m. not (is_linked m)) (sym e))
  after_attempt-Stops s exhausted e l mark = no_end refl refl e

  stop_receiving-Stops :
      (receiving : Bool) (joining : Joining) (s : Connection)
      → LiveIf s.is_connected s
      → Stops receiving joining s (
          stop_receiving net peer base64_encode fuel o is_ssl gga receiving joining
            (record s { is_disconnected = true }))
  stop_receiving-Stops false joining s v =
      stopped (record s { is_disconnected = true }) (live-Coherent s.is_connected s v) refl
  stop_receiving-Stops true stopping s v =
      stopped (record s { is_disconnected = true }) (live-Coherent s.is_connected s v) refl
  stop_receiving-Stops true losing s v =
      stopped (record s { is_disconnected = true; is_connected = false })
        (live-Coherent s.is_connected s v) refl
  stop_receiving-Stops true attempting s v =
      let s' = record s { is_disconnected = true; is_connected = false } in
      let (fd, down, n) =
        closed-Idle s.socket_fd s' refl (live-Coherent s.is_connected s v, refl) in
      let c = close_descriptor s.socket_fd s' in
      let live : LiveIf c.is_connected c =
        subst (λ b. LiveIf b c) (sym n) (subst (λ f. Coherent f c.is_open) (sym fd) down) in
      after_attempt-Stops s (attempt s) refl
        (connect-Links net peer base64_encode fuel o is_ssl gga c live)
        (connect-Marks net peer base64_encode fuel o is_ssl gga true c n
          (ap (λ (p : ℕ × Bool). p.1) (closed_calls s.socket_fd s')))

  stopped-Ends :
      (receiving : Bool) (joining : Joining) (s : Connection) (r : Option Connection)
      → Stops receiving joining s r
      → Ends receiving joining s
          (do t ← r; some (close_connection (record t { is_connected = false })))
  stopped-Ends receiving joining s none (no_end e e' e'') = waiting e e' e''
  stopped-Ends receiving joining s (some t) (stopped _ c mark) =
      let t' = record t { is_connected = false } in
      let done = closed-Idle t.socket_fd t' refl (c, refl) in
      closed (close_descriptor t.socket_fd t') done
        (ap (λ (p : ℕ × Bool). p.1) (closed_calls t.socket_fd t') ∙ mark)
        (λ later. again (close_descriptor t.socket_fd t') later done)

  -- `Disconnect` on a client that is coherent and not marked as disconnected, whatever its receiving
  -- thread does until it is joined: afterwards there is no descriptor, nothing is open and the client is
  -- not connected. It is marked as disconnected unless the thread was in an attempt to reconnect that
  -- succeeded, and another call only sets the mark. The call has no end only when the fuel of such an
  -- attempt is used up.
  pub disconnect-IsClosed :
      (receiving : Bool) (joining : Joining) (s : Connection)
      → LiveIf s.is_connected s
      → s.is_disconnected ≡ false
      → Ends receiving joining s
          (disconnect net peer base64_encode fuel o is_ssl gga receiving joining s)
  unfolding disconnect
  disconnect-IsClosed receiving joining s v h =
      let rest =
        stopped-Ends receiving joining s
          (stop_receiving net peer base64_encode fuel o is_ssl gga receiving joining
            (record s { is_disconnected = true }))
          (stop_receiving-Stops receiving joining s v) in
      choice (Ends receiving joining s) s.is_disconnected _ _ (λ up. absurd (cc)) (λ _. rest)
