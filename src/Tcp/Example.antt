-- ===== src/Tcp/Example.antt =====
-- System calls for a TCP client.
use asterx_driver.Base.{
  ℕ, zero, suc, ◌≤◌, true, [], Option, none, some, Bytes, text, length, take, length-take, ltb, ◌≡◌,
  ap, arith,
}
use asterx_driver.Tcp.Sockets.{
  Net, Client, Sent, accepted, send_interrupted, ready, arrived, in_progress,
}
use asterx_driver.Tcp.Write.{QuietFrom}

-- The first `send` is interrupted, the others take what they are given; a `recv` brings the
-- first of the same bytes; the first address refuses, and the second is reached.
abbrev pub sent_at : ℕ → Bytes → Sent
sent_at zero p = send_interrupted
sent_at (suc call) p = accepted (length p)

abbrev pub socket_at : ℕ → Option ℕ
socket_at call = some call

pub sent_at-le : (call n : ℕ) (p : Bytes) → sent_at call p ≡ accepted n → n ≤ length p
sent_at-le zero n p e = absurd (cc)
sent_at-le (suc call) n p e = let e' : length p ≡ n = cc in omega arith

pub arrived-le :
    (reply : Bytes) (size : ℕ) (bytes : Bytes)
    → arrived (take size reply) ≡ arrived bytes
    → length bytes ≤ size
arrived-le reply size bytes e =
    let e' : take size reply ≡ bytes = cc in
    let l : length (take size reply) ≡ length bytes = ap length e' in
    omega (arith, l, length-take size reply)

abbrev pub net_with : Bytes → Net
net_with reply = record {
  steady_now = λ call. 0;
  send = sent_at;
  poll = λ call timeout. ready;
  recv = λ call size. arrived (take size reply);
  getaddrinfo = λ call. some 2;
  socket = socket_at;
  fcntl = λ call. true;
  connect = λ call. in_progress;
  connect_ready = ltb 6;
  send-le = sent_at-le;
  recv-le = λ call size. arrived-le reply size;
}

abbrev pub net : Net
net = net_with (text "ok>")

abbrev pub closed_client : Client
closed_client = record { fd = none; sent = []; received = []; open_sockets = 0; calls = 0 }

abbrev pub open_client : Client
open_client = record { fd = some 3; sent = []; received = []; open_sockets = 1; calls = 0 }

pub QuietFrom-1 : (reply : Bytes) → QuietFrom 1 (net_with reply)
QuietFrom-1 reply zero p e = omega arith
QuietFrom-1 reply (suc call) p e = absurd (cc)
