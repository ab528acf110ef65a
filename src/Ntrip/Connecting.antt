-- ===== src/Ntrip/Connecting.antt =====
-- src/ntrip/ins401_ntrip_client.cpp: what `Connect` leaves behind.
use mathlib.Core.Path.{subst}
use asterx_driver.Base.{ℕ, Bool, true, false, Option, none, some, Bytes, choice, ◌≡◌, refl}
use asterx_driver.Ntrip.Reconnect.{Attempt, succeeded, refused, threw}
use asterx_driver.Ntrip.Request as Texts
use asterx_driver.Ntrip.Request.{Options, Peer, send_request, receive_response}
use asterx_driver.Ntrip.Lifecycle.{
  Net, Connection, Made, returned, thrown, exhausted, tick, log_and_fail, try_addresses,
  after_addresses, after_lookup, connect_socket, or_close, ssl_step, request_step, response_step,
  init_ssl_step, send_step, receive_step, make_connection, mark_connected, await_response,
  make_request, secure, connect,
}
use asterx_driver.Ntrip.Addresses.{
  Coherent, Stands, LiveIf, any-Coherent, Tries, Idle, closed-Idle, try_addresses-Tries,
}

module _ (net : Net) where
  abbrev Makes : Made → Type 0
  Makes (returned true t) = Stands t × (t.is_connected ≡ false)
  Makes (returned false t) = Idle t
  Makes (thrown t) = Idle t
  Makes exhausted = Unit

  log_and_fail-Makes :
      (enable_rtk : Bool) (s : Connection) → Idle s → Makes (log_and_fail enable_rtk s)
  log_and_fail-Makes enable_rtk s i = choice Makes enable_rtk _ _ (λ _. i) (λ _. i)

  after_addresses-Makes :
      (enable_rtk : Bool) (r : Bool × Connection)
      → Tries r
      → Makes (after_addresses net enable_rtk r)
  after_addresses-Makes enable_rtk (true, s) h = h
  after_addresses-Makes enable_rtk (false, s) i = log_and_fail-Makes enable_rtk s i

  after_lookup-Makes :
      (enable_rtk : Bool) (found : Option ℕ) (s : Connection)
      → Idle s
      → Makes (after_lookup net enable_rtk found s)
  after_lookup-Makes enable_rtk none s i = log_and_fail-Makes enable_rtk s i
  after_lookup-Makes enable_rtk (some addresses) s i =
      after_addresses-Makes enable_rtk (try_addresses net addresses s)
        (try_addresses-Tries net addresses s i)

  -- How `Connect` ends: connected over an open socket, or with nothing open and not connected, or with
  -- an exception and not connected. A caster that never ends its response may keep it.
  abbrev pub Links : Made → Type 0
  Links (returned true t) = Stands t × (t.is_connected ≡ true)
  Links (returned false t) = (t.socket_fd ≡ none) × (t.is_open ≡ false) × (t.is_connected ≡ false)
  Links (thrown t) = Coherent t.socket_fd t.is_open × (t.is_connected ≡ false)
  Links exhausted = Unit

  or_close-Links :
      (m : Made) (k : Connection → Made)
      → Makes m
      → ((t : Connection) → Stands t → t.is_connected ≡ false → Links (k t))
      → Links (or_close net m k)
  or_close-Links (returned true t) k (st, n) h = h t st n
  or_close-Links (returned false t) k (c, n) h =
      closed-Idle t.socket_fd (record t { is_connected = false }) refl (c, refl)
  or_close-Links (thrown t) k i h = i
  or_close-Links exhausted k i h = tt

  ssl_step-Makes :
      (a : Attempt) (s : Connection) → Stands s → s.is_connected ≡ false → Makes (ssl_step net a s)
  ssl_step-Makes succeeded s st n = (st, n)
  ssl_step-Makes refused s (has, up) n = (any-Coherent s.socket_fd s.is_open has, n)
  ssl_step-Makes threw s (has, up) n = (any-Coherent s.socket_fd s.is_open has, n)

  request_step-Makes :
      (s : Connection) (e : Texts.End Bool)
      → Stands s
      → s.is_connected ≡ false
      → Makes (request_step net s e)
  request_step-Makes s (Texts.returned true sent calls) st n = (st, n)
  request_step-Makes s (Texts.returned false sent calls) (has, up) n =
      (any-Coherent s.socket_fd s.is_open has, n)
  request_step-Makes s (Texts.thrown sent calls) (has, up) n =
      (any-Coherent s.socket_fd s.is_open has, n)
  request_step-Makes s Texts.exhausted st n = tt

  response_step-Makes :
      (s : Connection) (e : Texts.End Bool)
      → Stands s
      → s.is_connected ≡ false
      → Makes (response_step net s e)
  response_step-Makes s (Texts.returned true sent calls) st n = (st, n)
  response_step-Makes s (Texts.returned false sent calls) (has, up) n =
      (any-Coherent s.socket_fd s.is_open has, n)
  response_step-Makes s (Texts.thrown sent calls) (has, up) n =
      (any-Coherent s.socket_fd s.is_open has, n)
  response_step-Makes s Texts.exhausted st n = tt

  module _ (peer : Peer) (base64_encode : Bytes → Bytes) (fuel : ℕ) (o : Options) (is_ssl : Bool)
      (gga : Bytes) where
    init_ssl_step-Makes :
        (s : Connection)
        → Stands s
        → s.is_connected ≡ false
        → Makes (init_ssl_step net peer base64_encode fuel o is_ssl gga s)
    init_ssl_step-Makes s st n =
        choice Makes is_ssl _ _ (λ _. ssl_step-Makes (net.init_ssl s.calls) (tick s) st n)
          (λ _. (st, n))

    await_response-Links :
        (s : Connection)
        → Stands s
        → s.is_connected ≡ false
        → Links (await_response net peer base64_encode fuel o is_ssl gga s)
    await_response-Links s st n =
        or_close-Links (receive_step net peer base64_encode fuel o is_ssl gga s)
          (mark_connected net peer base64_encode fuel o is_ssl gga)
          (response_step-Makes s
            (receive_response peer o.enable_rtk fuel s.pending_data s.peer_calls) st n)
          (λ t st' n'. (st', refl))

    make_request-Links :
        (s : Connection)
        → Stands s
        → s.is_connected ≡ false
        → Links (make_request net peer base64_encode fuel o is_ssl gga s)
    make_request-Links s st n =
        or_close-Links (send_step net peer base64_encode fuel o is_ssl gga s)
          (await_response net peer base64_encode fuel o is_ssl gga)
          (request_step-Makes s (send_request peer o.enable_rtk base64_encode o gga s.peer_calls) st
            n)
          await_response-Links

    secure-Links :
        (s : Connection)
        → Stands s
        → s.is_connected ≡ false
        → Links (secure net peer base64_encode fuel o is_ssl gga s)
    secure-Links s st n =
        or_close-Links (init_ssl_step net peer base64_encode fuel o is_ssl gga s)
          (make_request net peer base64_encode fuel o is_ssl gga) (init_ssl_step-Makes s st n)
          make_request-Links

    make_connection-Links :
        (s : Connection)
        → Idle s
        → Links (make_connection net peer base64_encode fuel o is_ssl gga s)
    unfolding connect_socket
    make_connection-Links s i =
        or_close-Links (connect_socket net o.enable_rtk s)
          (secure net peer base64_encode fuel o is_ssl gga)
          (after_lookup-Makes o.enable_rtk (net.getaddrinfo s.calls) (tick s) i) secure-Links

    -- From a client that is coherent, `Connect` ends connected over an open socket when it returns true,
    -- without a descriptor and not connected when it returns false, and not connected when it throws;
    -- with the fuel used up by a response without an end nothing is said.
    pub connect-Links :
        (s : Connection)
        → LiveIf s.is_connected s
        → Links (connect net peer base64_encode fuel o is_ssl gga s)
    unfolding connect
    connect-Links s v =
        choice Links s.is_connected _ _ (λ h. (subst (λ b. LiveIf b s) h v, h))
          (λ h. make_connection-Links s (subst (λ b. LiveIf b s) h v, h))
