-- ===== src/Tcp/Connection.antt =====
-- src/tcp_client.cpp: a `TcpClient` as the control connection of `ReceiverConfigurator`.
use asterx_driver.Base.{ℕ, ◌+◌, ◌-◌, Bytes, length, ◌≡◌, arith}
use asterx_driver.Receiver.Link.{Link, Answer, answered, failed, conn_of, Puts}
use asterx_driver.Tcp.Sockets.{Net, Client, End, returned, thrown, exhausted}
use asterx_driver.Tcp.{read_until, write_all}
use asterx_driver.Tcp.Read.{Reads, Ended, Unended, read_until-Reads}
use asterx_driver.Tcp.Write.{Writes, QuietFrom, write_all-Writes}
use asterx_driver.Tcp.Kept.{Keeps, read_until-Keeps}

-- The default of `max_bytes`.
abbrev pub max_reply : ℕ
max_reply = 65536

-- A method that ends.
abbrev pub Ends {ℓ} : {A : Type ℓ} → End A → Type 0
Ends (returned a c) = Unit
Ends (thrown e c) = Unit
Ends exhausted = ⊥

abbrev pub answer_of {ℓ} : {A : Type ℓ} (e : End A) → Ends e → Answer Client A
answer_of (returned a c) h = answered a c
answer_of (thrown e c) h = failed c
answer_of exhausted h = absurd h

Reads-Ends :
    (Got : Bytes → Client → Type 0) (Lost : Bytes → Type 0) (before : Bytes) (e : End Bytes)
    → Reads Got Lost before e
    → Ends e
Reads-Ends Got Lost before (returned a c) h = tt
Reads-Ends Got Lost before (thrown e c) h = tt
Reads-Ends Got Lost before exhausted h = h

Writes-Ends : (before p : Bytes) (e : End (Unit {0})) → Writes before p e → Ends e
Writes-Ends before p (returned a c) h = tt
Writes-Ends before p (thrown e c) h = tt
Writes-Ends before p exhausted h = h

pub answer_of-Puts :
    (before p : Bytes) (e : End (Unit {0})) (h : Ends e)
    → Writes before p e
    → Puts (λ c. c.sent) before p (answer_of e h)
answer_of-Puts before p (returned a c) h w = w
answer_of-Puts before p (thrown e c) h w = w
answer_of-Puts before p exhausted h w = absurd h

pub answer_of-Keeps :
    (sent : Bytes) (e : End Bytes) (h : Ends e)
    → Keeps sent e
    → (conn_of (answer_of e h)).sent ≡ sent
answer_of-Keeps sent (returned a c) h k = k
answer_of-Keeps sent (thrown e c) h k = k
answer_of-Keeps sent exhausted h k = absurd h

module _ (net : Net) (quiet : ℕ) (h : QuietFrom quiet net) where
  abbrev pub write_fuel : Client → Bytes → ℕ
  write_fuel c bytes = (quiet - c.calls) + length bytes

  pub written :
      (bytes : Bytes) (c : Client)
      → Writes c.sent bytes (write_all net (write_fuel c bytes) bytes c)
  written bytes c = write_all-Writes net quiet h (write_fuel c bytes) bytes c (omega arith)

  pub write_all-Ends :
      (bytes : Bytes) (c : Client) → Ends (write_all net (write_fuel c bytes) bytes c)
  write_all-Ends bytes c = Writes-Ends c.sent bytes _ (written bytes c)

  pub read_until-Ends :
      (terminator : Bytes) (timeout : ℕ) (c : Client)
      → Ends (read_until net terminator timeout max_reply c)
  read_until-Ends terminator timeout c =
      Reads-Ends (Ended net terminator max_reply) (Unended terminator max_reply) c.received _
        (read_until-Reads net terminator max_reply timeout c)

  -- Both operations end, so that the connection needs no fuel.
  unfoldable pub tcp_link : Link Client
  tcp_link = record {
    write_all =
        λ bytes c. answer_of (write_all net (write_fuel c bytes) bytes c) (write_all-Ends bytes c);
    read_until = λ terminator timeout c.
        answer_of (read_until net terminator timeout max_reply c)
          (read_until-Ends terminator timeout c);
    output = λ c. c.sent;
    write_all-Puts =
        λ bytes c. answer_of-Puts c.sent bytes _ (write_all-Ends bytes c) (written bytes c);
    read_until-output = λ terminator timeout c.
        answer_of-Keeps c.sent _ (read_until-Ends terminator timeout c)
          (read_until-Keeps net terminator timeout max_reply c);
  }
