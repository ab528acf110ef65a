-- ===== src/Ntrip/Callback.antt =====
-- src/ntrip/ins401_ntrip_client.cpp: `NTRIPCallback`, which forwards messages to the device.
use asterx_driver.Base.{
  ℕ, zero, suc, ◌+◌, ◌%◌, ◌^◌, Bool, true, false, ◌&&◌, List, [], ◌∷◌, ◌++◌, Option, none, some,
  Bytes, ◌==◌, if◌then◌else◌,
}

-- `EthernetSocket` and `Ethernet::BuildAceinnaPacket` at the n-th call. A construction may throw.
pub record Device : Type 0 where
  pub construct : ℕ → Bool
  pub is_valid : ℕ → Bool
  -- the packet with the socket's own address, or with the configured one
  pub build_packet : ℕ → Bool → Bytes → Option Bytes
  -- `Send` returns more than 0
  pub send : ℕ → Bytes → Bool

-- The members of `NTRIPCallback`. `attempts` records the packets handed to `Send`, with its answer.
pub record Callback : Type 0 where
  pub socket_initialized : Bool
  pub has_socket : Bool
  pub packets_sent : ℕ
  pub packets_failed : ℕ
  pub attempts : List (Bytes × Bool)
  pub calls : ℕ

abbrev pub tick : Callback → Callback
tick s = record s { calls = s.calls + 1 }

abbrev pub new_callback : Callback
new_callback = record {
  socket_initialized = false;
  has_socket = false;
  packets_sent = 0;
  packets_failed = 0;
  attempts = [];
  calls = 0;
}

abbrev pub count_sent : Callback → Callback
count_sent s = record s { packets_sent = (s.packets_sent + 1) % 2 ^ 64 }

abbrev pub count_failed : Callback → Callback
count_failed s = record s { packets_failed = (s.packets_failed + 1) % 2 ^ 64 }

abbrev pub cleanup : Callback → Callback
cleanup s = record s { has_socket = false; socket_initialized = false }

module _ (device : Device) where
  abbrev pub construct_socket : Callback → Callback
  construct_socket s =
      if device.construct s.calls
      then record s {
        has_socket = true;
        socket_initialized = device.is_valid (s.calls + 1);
        calls = s.calls + 2;
      }
      else tick (cleanup s)

  -- `IsValid` is called when the first two tests hold.
  unfoldable pub initialize : Callback → Callback
  initialize s =
      if s.socket_initialized && s.has_socket
      then if device.is_valid s.calls then tick s else construct_socket (tick s)
      else construct_socket s

  unfoldable pub reset : Callback → Callback
  reset s = initialize (cleanup s)

  -- One call of `Send`; without a socket it is not made and fails.
  abbrev pub try_send : Bytes → Callback → Bool
  try_send packet s = s.has_socket && device.send s.calls packet

  abbrev pub note_send : Bytes → Callback → Callback
  note_send packet s =
      if s.has_socket
      then tick (record s { attempts = s.attempts ++ (packet, device.send s.calls packet) ∷ [] })
      else s

  -- The retries, and whether the packet was sent.
  unfoldable pub send_retries : ℕ → Bytes → Callback → Bool × Callback
  send_retries zero packet s = (false, s)
  send_retries (suc left) packet s =
      let rest = send_retries left packet (note_send packet s) in
      if try_send packet s then (true, note_send packet s) else rest

  abbrev pub after_retries : Bool × Callback → Bool × Callback
  after_retries (true, s) = (true, count_sent s)
  after_retries (false, s) =
      if (count_failed s).packets_failed % 10 == 0
      then (false, reset (count_failed s))
      else (false, count_failed s)

  abbrev pub after_build : Option Bytes → Callback → Bool × Callback
  after_build none s = (false, count_failed s)
  after_build (some packet) s = after_retries (send_retries 3 packet s)

  abbrev pub build_and_send : Bytes → Callback → Bool × Callback
  build_and_send payload s =
      after_build (device.build_packet s.calls (s.has_socket && device.is_valid s.calls) payload)
        (tick s)

  unfoldable pub send_to_ins401 : Bytes → Callback → Bool × Callback
  send_to_ins401 payload s =
      let ready = initialize s in
      if ready.socket_initialized then build_and_send payload ready else (false, count_failed ready)
