-- ===== src/Ntrip/Tests.antt =====
-- The theorems on the client for correction data at small runs.
use mathlib.Core.List.{flatten}
use asterx_driver.Base.{
  List, getlines, map, to_string, Bool, false, ◌&&◌, ℕ, ◌≤◌, true, [], ◌∷◌, some, Bytes, text,
  length, ltb, if◌then◌else◌, ◌≡◌, refl, arith,
}
use asterx_driver.Receiver.Settings.{pos}
use asterx_driver.Ntrip.Chunks.{Chunker, chunk_all}
use asterx_driver.Ntrip.Blocks.{Passes, chunk_all-Passes, chunk_all_pieces}
use asterx_driver.Ntrip.Threads.{
  Run, reconnecting, reading, started, on_received, on_reconnected, receive_thread, go_on, receive,
  reconnect, Reach, here, then_step,
}
use asterx_driver.Ntrip.Sound.{Sound}
use asterx_driver.Ntrip.Runs.{reached-Sound}
use asterx_driver.Ntrip.Lost.{lost_arrived}
use asterx_driver.Ntrip.Reconnect.{
  reconnect_loop, World, succeeded, refused, Attempt, handle_reconnect, Kept, handle_reconnect-Kept,
}
use asterx_driver.Ntrip.Request.{
  Options, build_http_request, Peer, put, got, send_request, send_gga, receive_response,
}
use asterx_driver.Ntrip.Sending.{Puts, send_request-Puts, Throttled, send_gga-Throttled}
use asterx_driver.Ntrip.Response.{Answers, receive_response-Answers}
use asterx_driver.Ntrip.Answered.{HasAnswer, receive_response-HasAnswer}
use asterx_driver.Ntrip.Callback.{Device, new_callback, initialize, send_retries, send_to_ins401}
use asterx_driver.Ntrip.Forwarding.{Forwards, send_to_ins401-Forwards}
use asterx_driver.Ntrip.Request.{send_loop, response_loop}
use asterx_driver.Receiver.Example.{read_from}
use asterx_driver.Ntrip.Request.{Received}
use asterx_driver.Ntrip.SourceTable.{
  Reader, TableEnd, table, parse_lines, read_loop, get_source_table,
}
use asterx_driver.Ntrip.MountPoints.{ListsSome, get_source_table-ListsSome}
use asterx_driver.Ntrip.Lifecycle.{
  Net, Connected, connected, connect_failed, Connection, fresh_connection, Made, returned, connect,
  connect_socket, try_addresses, set_up, disconnect,
}
use asterx_driver.Ntrip.Connecting.{Links, connect-Links}
use asterx_driver.Ntrip.Closing.{Ends, disconnect-IsClosed}
use asterx_driver.Ntrip.Lifecycle.{attempting}
use asterx_driver.Base.{Option, none}

abbrev chunker : Chunker
chunker = record {
  max_buffer_size = 8388608;
  rtcm_buffer = text "a";
  rtcm_sync_lost_count = 0;
  messages_received = 0;
}

chunk_all-Passes_example :
    Passes chunker
      (flatten (text "bc" ∷ text "d" ∷ []))
      (chunk_all (text "bc" ∷ text "d" ∷ []) chunker)
chunk_all-Passes_example =
    chunk_all-Passes chunker (text "bc" ∷ text "d" ∷ []) (omega arith) (omega arith)
      (omega arith, (omega arith, tt))

chunk_all_pieces_example :
    ((chunk_all (text "bc" ∷ text "d" ∷ []) chunker).0 ≡ (chunk_all (text "bcd" ∷ []) chunker).0)
    × (((chunk_all (text "bc" ∷ text "d" ∷ []) chunker).1).rtcm_buffer
        ≡ ((chunk_all (text "bcd" ∷ []) chunker).1).rtcm_buffer)
unfolding flatten
chunk_all_pieces_example =
    chunk_all_pieces chunker (text "bc" ∷ text "d" ∷ []) (text "bcd" ∷ []) (omega arith)
      (omega arith) (omega arith, (omega arith, tt)) (omega arith, tt) refl

-- The receiving thread reads one piece.
abbrev start : Run
start = started true (text "x")

abbrev at_read : Run
at_read = record start { receiver = reading }

one_piece : Reach start (on_received (text "yz") at_read)
one_piece =
    then_step (then_step here (receive_thread (go_on refl refl)))
      (receive_thread (receive (text "yz") refl (omega arith) (omega arith)))

reached-Sound_example : Sound (on_received (text "yz") at_read)
reached-Sound_example =
    reached-Sound true (text "x") (on_received (text "yz") at_read) (omega arith) one_piece

abbrev without_connection : Run
without_connection = record start { connected = false; receiver = reconnecting }

lost_arrived_example : (on_reconnected without_connection).arrived ≡ text "x" ∷ []
lost_arrived_example =
    lost_arrived without_connection (on_reconnected without_connection) tt
      (then_step here (receive_thread (reconnect refl)))

-- The caster is back at the sixth attempt.
abbrev connects_at : ℕ → Attempt
connects_at n = if ltb n 6 then refused else succeeded

abbrev world : World
world = record { receiving = λ n. true; connect = connects_at }

handle_reconnect-Kept_example : Kept 1 10 (handle_reconnect world)
handle_reconnect-Kept_example = handle_reconnect-Kept world

waits : (handle_reconnect world).waits ≡ 5 ∷ 5 ∷ 5 ∷ 5 ∷ 10 ∷ 20 ∷ []
unfolding reconnect_loop
waits = refl

abbrev options : Options
options = record {
  enable_rtk = false;
  host = text "caster";
  port = pos 2101;
  mount_point = text "MP";
  username = text "u";
  password = text "p";
  use_vrs = true;
}

put-le : (call n : ℕ) (p : Bytes) → put (length p) ≡ put n → n ≤ length p
put-le call n p e = let e' : length p ≡ n = cc in omega arith

abbrev peer : Peer
peer = record {
  send = λ call p. put (length p);
  recv = λ call size. got (text "ICY 200 OK\r\n\r\nabc");
  select = λ call. true;
  send-le = put-le;
}

send_request-Puts_example :
    Puts
      (build_http_request (λ s. s) options [] (text "/MP"))
      (send_request peer false (λ s. s) options [] 0)
send_request-Puts_example = send_request-Puts peer false (λ s. s) options [] 0

receive_response-Answers_example : Answers peer 1 [] [] (receive_response peer false 2 [] 0)
receive_response-Answers_example = receive_response-Answers peer false 2 0 [] refl

receive_response-HasAnswer_example : HasAnswer (receive_response peer false 2 [] 0)
receive_response-HasAnswer_example =
    receive_response-HasAnswer peer false 1 2 0 [] refl (omega arith)

send_gga-Throttled_example :
    Throttled peer false 30 100 60
      (text "$GPGGA*00")
      0
      (send_gga peer false 30 100 60 (text "$GPGGA*00") 0)
send_gga-Throttled_example = send_gga-Throttled peer false 30 100 60 (text "$GPGGA*00") 0

-- The device takes the packet at the second call.
abbrev device : Device
device = record {
  construct = λ call. true;
  is_valid = λ call. true;
  build_packet = λ call own payload. some payload;
  send = λ call packet. ltb 3 call;
}

send_to_ins401-Forwards_example :
    Forwards device (text "m") new_callback (send_to_ins401 device (text "m") new_callback)
send_to_ins401-Forwards_example = send_to_ins401-Forwards device (text "m") new_callback

tried_twice :
    (send_to_ins401 device (text "m") new_callback).1.attempts
    ≡ (text "m", false) ∷ (text "m", true) ∷ []
unfolding send_to_ins401 initialize send_retries
tried_twice = refl

-- The first address refuses, and the second is reached.
abbrev answer_at : ℕ → Connected
answer_at call = if ltb call 12 then connect_failed else connected

abbrev net : Net
net = record {
  getaddrinfo = λ call. some 2;
  socket = λ call. some call;
  setup = λ call. true;
  connect = answer_at;
  ready = λ call. true;
  init_ssl = λ call. refused;
  guard_closes = true;
}

connect-Links_example : Links net (connect net peer (λ s. s) 2 options false [] fresh_connection)
connect-Links_example = connect-Links net peer (λ s. s) 2 options false [] fresh_connection refl

abbrev is_up : Made → Bool
is_up (returned b s) = b && s.is_connected
is_up _ = false

reached : is_up (connect net peer (λ s. s) 2 options false [] fresh_connection) ≡ true
unfolding connect connect_socket try_addresses set_up send_request send_loop build_http_request
    receive_response response_loop to_string
reached = refl

abbrev up : Connection
up = record fresh_connection { socket_fd = some 3; is_open = true; is_connected = true }

disconnect-IsClosed_example :
    Ends net peer
      (λ s. s)
      2
      options
      false
      []
      true
      attempting
      up
      (disconnect net peer (λ s. s) 2 options false [] true attempting up)
disconnect-IsClosed_example =
    disconnect-IsClosed net peer (λ s. s) 2 options false [] true attempting up (tt, refl) refl

-- The attempt succeeds, so that the client is not marked.
abbrev marked : Option Connection → Option Bool
marked r = elim r [ some t ↦ some t.is_disconnected | none ↦ none ]

not_marked :
    marked (disconnect net peer (λ s. s) 2 options false [] true attempting up) ≡ some false
unfolding disconnect connect connect_socket try_addresses set_up send_request send_loop
    build_http_request receive_response response_loop to_string
not_marked = refl

-- An option of the socket that cannot be set: the descriptor is closed, and later closed again.
abbrev stale_closes_of : Made → ℕ
stale_closes_of (returned b s) = s.stale_closes
stale_closes_of _ = 0

closed_twice :
    stale_closes_of (
      connect
        (record net { setup = λ call. false })
        peer
        (λ s. s)
        2
        options
        false
        []
        fresh_connection)
    ≡ 2
unfolding connect connect_socket try_addresses set_up
closed_twice = refl

abbrev reader : Reader ℕ
reader = record {
  split_string = getlines b';';
  stoi = λ s. some (pos (read_from 0 s));
  stod = λ s. some (read_from 0 s);
  zero_degrees = 0;
}

-- One mount point, and then the end of the connection.
abbrev table_at : ℕ → Received
table_at call =
    if ltb call 3
    then got (text "SOURCETABLE 200 OK\r\n\r\nSTR;MP;Town;RTCM 3\r\nENDSOURCETABLE\r\n")
    else got []

abbrev table_peer : Peer
table_peer = record peer { recv = λ call size. table_at call }

get_source_table-ListsSome_example :
    ListsSome reader net table_peer
      (λ s. s)
      options
      false
      3
      []
      fresh_connection
      (get_source_table reader net table_peer (λ s. s) options false 3 [] fresh_connection)
get_source_table-ListsSome_example =
    get_source_table-ListsSome reader net table_peer (λ s. s) options false 3 [] fresh_connection

abbrev names_of : TableEnd ℕ → List Bytes
names_of (table points s) = map (λ p. p.mount_point) points
names_of _ = []

one_mount_point :
    names_of (get_source_table reader net table_peer (λ s. s) options false 3 [] fresh_connection)
    ≡ text "MP" ∷ []
unfolding get_source_table connect_socket try_addresses set_up build_http_request read_loop
    parse_lines to_string
one_mount_point = refl
