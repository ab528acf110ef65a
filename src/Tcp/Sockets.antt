-- ===== src/Tcp/Sockets.antt =====
-- The system calls that src/tcp_client.cpp makes, and what its methods work on.
use asterx_driver.Base.{ℕ, suc, ◌≤◌, Bool, Option, Bytes, length, ◌≡◌}

pub data Sent : Type 0 where
  accepted : ℕ → Sent
  send_interrupted send_failed : Sent

pub data Polled : Type 0 where
  ready timed_out poll_interrupted poll_failed : Polled

pub data Received : Type 0 where
  arrived : Bytes → Received
  recv_interrupted recv_failed : Received

pub data Connected : Type 0 where
  connected in_progress connect_failed : Connected

-- The n-th call may have any answer that its documentation allows.
pub record Net : Type 0 where
  pub steady_now : ℕ → ℕ
  pub send : ℕ → Bytes → Sent
  pub poll : ℕ → ℕ → Polled
  pub recv : ℕ → ℕ → Received
  -- The number of addresses found.
  pub getaddrinfo : ℕ → Option ℕ
  pub socket : ℕ → Option ℕ
  pub fcntl : ℕ → Bool
  pub connect : ℕ → Connected
  -- `poll` for output, and then `SO_ERROR` is 0.
  pub connect_ready : ℕ → Bool
  pub send-le : (call n : ℕ) (p : Bytes) → send call p ≡ accepted n → n ≤ length p
  pub recv-le :
      (call size : ℕ) (bytes : Bytes) → recv call size ≡ arrived bytes → length bytes ≤ size

-- `fd` is `fd_`. The other fields record what the calls have done: the bytes that were sent and
-- received, the sockets that are open, and the number of calls.
pub record Client : Type 0 where
  pub fd : Option ℕ
  pub sent : Bytes
  pub received : Bytes
  pub open_sockets : ℕ
  pub calls : ℕ

pub data TcpError : Type 0 where
  not_open already_open no_address cannot_connect fcntl_error send_error peer_closed : TcpError
  poll_error read_timeout recv_error deadline_passed too_many_bytes : TcpError

-- How a method ends; `exhausted` is a loop that has used up its fuel.
pub data End {ℓ} (A : Type ℓ) : Type ℓ where
  returned : A → Client → End A
  thrown : TcpError → Client → End A
  exhausted : End A

abbrev pub M : Type 0 → Type 0
M A = Client → End A

abbrev pub after : {A B : Type 0} → End A → (A → M B) → End B
after (returned a c) k = k a c
after (thrown e c) k = thrown e c
after exhausted k = exhausted

infixl 5 ◌>>=◌ ◌>>◌
abbrev pub ◌>>=◌ : {A B : Type 0} → M A → (A → M B) → M B
◌>>=◌ m k c = after (m c) k

abbrev pub ◌>>◌ : {B : Type 0} → M (Unit {0}) → M B → M B
m >> k = m >>= λ _. k

abbrev pub done : M (Unit {0})
done c = returned tt c

abbrev pub throw : {A : Type 0} → TcpError → M A
throw e c = thrown e c

-- One more call.
abbrev pub tick : Client → Client
tick c = record c { calls = suc c.calls }
