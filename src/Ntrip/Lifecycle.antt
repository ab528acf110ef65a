-- ===== src/Ntrip/Lifecycle.antt =====
-- src/ntrip/ins401_ntrip_client.cpp: the connection of `NTRIPClient`, its making and its end.
use asterx_driver.Base.{
  ◌>>=◌, ℕ, zero, suc, ◌+◌, Bool, true, false, [], Option, none, some, Bytes, if◌then◌else◌,
}
use asterx_driver.Ntrip.Reconnect.{Attempt, succeeded, refused, threw}
use asterx_driver.Ntrip.Request as Texts
use asterx_driver.Ntrip.Request.{Options, Peer, send_request, receive_response}

pub data Connected : Type 0 where
  connected in_progress connect_failed : Connected

-- The n-th call. `setup` is a call of `setsockopt` or `fcntl`, `ready` is `select` and then `SO_ERROR`,
-- `init_ssl` is `InitSSL`. `guard_closes` is what `Ethernet::FdGuard` does without `Release`.
pub record Net : Type 0 where
  pub getaddrinfo : ℕ → Option ℕ
  pub socket : ℕ → Option ℕ
  pub setup : ℕ → Bool
  pub connect : ℕ → Connected
  pub ready : ℕ → Bool
  pub init_ssl : ℕ → Attempt
  pub guard_closes : Bool

-- Whether the descriptor in `socket_fd_` is open, and the number of calls of `close` on one that was
-- not, are what the calls have done.
pub record Connection : Type 0 where
  pub socket_fd : Option ℕ
  pub is_open : Bool
  pub stale_closes : ℕ
  pub is_connected : Bool
  pub is_disconnected : Bool
  pub pending_data : Bytes
  pub calls : ℕ
  pub peer_calls : ℕ

abbrev pub tick : Connection → Connection
tick s = record s { calls = suc s.calls }

abbrev pub fresh_connection : Connection
fresh_connection = record {
  socket_fd = none;
  is_open = false;
  stale_closes = 0;
  is_connected = false;
  is_disconnected = false;
  pending_data = [];
  calls = 0;
  peer_calls = 0;
}

-- A method that returns a `bool`, throws, or has used up its fuel.
pub data Made : Type 0 where
  returned : Bool → Connection → Made
  thrown : Connection → Made
  exhausted : Made

-- The receiving thread leaves its loop, finds the connection closed or broken, or is in an attempt of
-- `HandleReconnect`.
pub data Joining : Type 0 where
  stopping losing attempting : Joining

-- `close(socket_fd_); socket_fd_ = -1;`, when there is one.
abbrev pub close_descriptor : Option ℕ → Connection → Connection
close_descriptor none s = s
close_descriptor (some fd) s = record s {
  socket_fd = none;
  is_open = false;
  stale_closes = if s.is_open then s.stale_closes else suc s.stale_closes;
}

-- The end of TLS is left out.
abbrev pub close_connection : Connection → Connection
close_connection s = close_descriptor s.socket_fd (record s { is_connected = false })

-- `LogErrorOrWarn`, and then `return false`.
abbrev pub log_and_fail : Bool → Connection → Made
log_and_fail enable_rtk s = if enable_rtk then thrown s else returned false s

module _ (net : Net) where
  abbrev pub drop_guard : Connection → Connection
  drop_guard s = if net.guard_closes then record s { is_open = false } else s

  -- The options of a new socket, one call after the other.
  unfoldable pub set_up : ℕ → Connection → Bool × Connection
  set_up zero s = (true, s)
  set_up (suc left) s =
      let rest = set_up left (tick s) in
      if net.setup s.calls then rest else (false, drop_guard (tick s))

  abbrev pub after_socket : Option ℕ → Connection → Bool × Connection
  after_socket none s = (false, s)
  after_socket (some fd) s = set_up 7 (record s { socket_fd = some fd; is_open = true })

  abbrev pub create_socket : Connection → Bool × Connection
  create_socket s =
      let s' = close_descriptor s.socket_fd s in after_socket (net.socket s'.calls) (tick s')

  -- Whether the connection stands.
  abbrev pub stands : Connected → ℕ → Bool
  stands connected call = true
  stands in_progress call = net.ready call
  stands connect_failed call = false

  abbrev pub after_create : (Connection → Bool × Connection) → Bool × Connection → Bool × Connection
  after_create next (false, s) = next s
  after_create next (true, s) =
      if stands (net.connect s.calls) (suc s.calls)
      then (true, record s { calls = s.calls + 2 })
      else next (close_descriptor s.socket_fd (record s { calls = s.calls + 2 }))

  -- The loop over the addresses.
  unfoldable pub try_addresses : ℕ → Connection → Bool × Connection
  try_addresses zero s = (false, s)
  try_addresses (suc left) s = after_create (try_addresses left) (create_socket s)

  module _ (enable_rtk : Bool) where
    abbrev pub after_addresses : Bool × Connection → Made
    after_addresses (true, s) = returned true s
    after_addresses (false, s) = log_and_fail enable_rtk s

    abbrev pub after_lookup : Option ℕ → Connection → Made
    after_lookup none s = log_and_fail enable_rtk s
    after_lookup (some addresses) s = after_addresses (try_addresses addresses s)

    unfoldable pub connect_socket : Connection → Made
    connect_socket s = after_lookup (net.getaddrinfo s.calls) (tick s)

  -- `if (!step()) { CloseConnection(); return false; }`
  abbrev pub or_close : Made → (Connection → Made) → Made
  or_close (returned true s) k = k s
  or_close (returned false s) k = returned false (close_connection s)
  or_close (thrown s) k = thrown s
  or_close exhausted k = exhausted

  abbrev pub ssl_step : Attempt → Connection → Made
  ssl_step succeeded s = returned true s
  ssl_step refused s = returned false s
  ssl_step threw s = thrown s

  abbrev pub request_step : Connection → Texts.End Bool → Made
  request_step s (Texts.returned ok sent calls) = returned ok (record s { peer_calls = calls })
  request_step s (Texts.thrown sent calls) = thrown (record s { peer_calls = calls })
  request_step s Texts.exhausted = exhausted

  abbrev pub response_step : Connection → Texts.End Bool → Made
  response_step s (Texts.returned ok pending calls) =
      returned ok (record s { pending_data = pending; peer_calls = calls })
  response_step s (Texts.thrown pending calls) =
      thrown (record s { pending_data = pending; peer_calls = calls })
  response_step s Texts.exhausted = exhausted

  module _ (peer : Peer) (base64_encode : Bytes → Bytes) (fuel : ℕ) (o : Options) (is_ssl : Bool)
      (gga : Bytes) where
    abbrev pub init_ssl_step : Connection → Made
    init_ssl_step s = if is_ssl then ssl_step (net.init_ssl s.calls) (tick s) else returned true s

    abbrev pub send_step : Connection → Made
    send_step s = request_step s (send_request peer o.enable_rtk base64_encode o gga s.peer_calls)

    abbrev pub receive_step : Connection → Made
    receive_step s =
        response_step s (receive_response peer o.enable_rtk fuel s.pending_data s.peer_calls)

    -- The steps of `Connect` on a client that is not connected, the last one first.
    abbrev pub mark_connected : Connection → Made
    mark_connected s = returned true (record s { is_connected = true; is_disconnected = false })

    abbrev pub await_response : Connection → Made
    await_response s = or_close (receive_step s) mark_connected

    abbrev pub make_request : Connection → Made
    make_request s = or_close (send_step s) await_response

    abbrev pub secure : Connection → Made
    secure s = or_close (init_ssl_step s) make_request

    abbrev pub make_connection : Connection → Made
    make_connection s = or_close (connect_socket o.enable_rtk s) secure

    unfoldable pub connect : Connection → Made
    connect s = if s.is_connected then returned true s else make_connection s

    -- What `ReceiveThread` does while `StopReceiving` waits for it. An attempt of `HandleReconnect` is
    -- made when `receiving_` was read before it was reset; it is the last one.
    abbrev pub after_attempt : Made → Option Connection
    after_attempt (returned ok s) = some s
    after_attempt (thrown s) = some (record s { is_connected = false })
    after_attempt exhausted = none

    abbrev pub join_receiver : Joining → Connection → Option Connection
    join_receiver stopping s = some s
    join_receiver losing s = some (record s { is_connected = false })
    join_receiver attempting s = after_attempt (connect (close_connection s))

    abbrev pub stop_receiving : Bool → Joining → Connection → Option Connection
    stop_receiving receiving joining s = if receiving then join_receiver joining s else some s

    -- There is no end while the attempt waits for the end of a response.
    unfoldable pub disconnect : Bool → Joining → Connection → Option Connection
    disconnect receiving joining s =
        let rest = (do
          t ← stop_receiving receiving joining (record s { is_disconnected = true })
          some (close_connection (record t { is_connected = false }))) in
        if s.is_disconnected then some s else rest
