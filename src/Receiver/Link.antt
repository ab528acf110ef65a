-- ===== src/Receiver/Link.antt =====
-- The control connection as `ReceiverConfigurator` sees it, and the methods that use it.
-- `ReceiverConfigurator` needs of its `TcpClient` two operations, which end well or throw `TcpError`,
-- and relies on two laws on the bytes that the connection has put out.
use mathlib.Core.List.{flatten}
use asterx_driver.Base.{ℕ, List, [], ◌∷◌, ◌++◌, Bytes, ◌≡◌, text}
use asterx_driver.Receiver.Settings.{ConfigError, Result, ok, error}

-- How an operation of the connection ends, and the connection then.
pub data Answer {ℓ} (S : Type 0) (A : Type ℓ) : Type ℓ where
  answered : A → S → Answer S A
  failed : S → Answer S A

abbrev pub conn_of {ℓ} : {S : Type 0} {A : Type ℓ} → Answer S A → S
conn_of (answered a s) = s
conn_of (failed s) = s

-- All of `bytes` was put out behind `before`, or a first part when the operation failed.
abbrev pub Puts : {S : Type 0} → (S → Bytes) → Bytes → Bytes → Answer S (Unit {0}) → Type 0
Puts output before bytes (answered u s) = output s ≡ before ++ bytes
Puts output before bytes (failed s) =
    (begun : Bytes) × (rest : Bytes) × (begun ++ rest ≡ bytes) × (output s ≡ before ++ begun)

pub record Link (S : Type 0) : Type 0 where
  pub write_all : Bytes → S → Answer S (Unit {0})
  pub read_until : Bytes → ℕ → S → Answer S Bytes
  -- What has been put out on the connection.
  pub output : S → Bytes
  pub write_all-Puts : (bytes : Bytes) (s : S) → Puts output (output s) bytes (write_all bytes s)
  pub read_until-output :
      (terminator : Bytes) (timeout : ℕ) (s : S)
      → output (conn_of (read_until terminator timeout s)) ≡ output s

-- The connection, and the texts handed to its `write_all`, the oldest first.
pub record Wire (S : Type 0) : Type 0 where
  pub sent : List Bytes
  pub conn : S

pub data Failure : Type 0 where
  tcp : Failure
  config : ConfigError → Failure

-- How a method ends.
pub data End {ℓ} (S : Type 0) (A : Type ℓ) : Type ℓ where
  returned : A → Wire S → End S A
  thrown : Failure → Wire S → End S A

abbrev pub M : Type 0 → Type 0 → Type 0
M S A = Wire S → End S A

abbrev pub after : {S A B : Type 0} → End S A → (A → M S B) → End S B
after (returned a w) k = k a w
after (thrown e w) k = thrown e w

infixl 5 ◌>>=◌ ◌>>◌
abbrev pub ◌>>=◌ : {S A B : Type 0} → M S A → (A → M S B) → M S B
◌>>=◌ m k w = after (m w) k

abbrev pub ◌>>◌ : {S B : Type 0} → M S (Unit {0}) → M S B → M S B
m >> k = m >>= λ _. k

abbrev pub done : {S : Type 0} → M S (Unit {0})
done w = returned tt w

-- A check throws its `ConfigError`.
abbrev pub check : {S A : Type 0} → Result A → M S A
check (ok a) w = returned a w
check (error e) w = thrown (config e) w

abbrev pub wire_of {ℓ} : {S : Type 0} {A : Type ℓ} → End S A → Wire S
wire_of (returned a w) = w
wire_of (thrown e w) = w

-- `catch (const ConfigError &)` and `catch (...)`, with an empty handler.
abbrev pub handle_config : {S A : Type 0} → End S A → End S (Unit {0})
handle_config (returned a w) = returned tt w
handle_config (thrown tcp w) = thrown tcp w
handle_config (thrown (config e) w) = returned tt w

abbrev pub handle_all : {S A : Type 0} → End S A → End S (Unit {0})
handle_all (returned a w) = returned tt w
handle_all (thrown e w) = returned tt w

-- An operation of the connection as a step of a method, with the texts handed over by then.
abbrev pub settle {ℓ} : {S : Type 0} {A : Type ℓ} → List Bytes → Answer S A → End S A
settle sent (answered a s) = returned a (record { sent = sent; conn = s })
settle sent (failed s) = thrown tcp (record { sent = sent; conn = s })

module _ {S : Type 0} (link : Link S) where
  abbrev pub write_text : Bytes → M S (Unit {0})
  write_text s w = settle (w.sent ++ s ∷ []) (link.write_all s w.conn)

  abbrev pub read_reply : ℕ → M S Bytes
  read_reply timeout w = settle w.sent (link.read_until (text ">") timeout w.conn)

  -- What was put out is what was there at the start, and the texts handed over.
  abbrev pub InStep : Bytes → Wire S → Type 0
  InStep base w = link.output w.conn ≡ base ++ flatten w.sent
