-- ===== src/Main/Session.antt =====
-- src/main.cpp: the session between the configuration and the exit code.
use asterx_driver.Base.{
  ℕ, zero, suc, ◌+◌, ◌*◌, Bool, [], ◌∷◌, Option, none, some, if◌then◌else◌, Bytes,
}
use asterx_driver.Receiver.Settings.{ℤ, pos, negsuc, Numbers}
use asterx_driver.Receiver.Link as Link
use asterx_driver.Receiver.Link.{Wire, M, ◌>>◌, wire_of}
use asterx_driver.Receiver.Session.{login, apply, stop_streams}
use asterx_driver.AppConfig.{AppConfig}
use asterx_driver.Recorder as Recording
use asterx_driver.Recorder.{Os, Config, Recorder, Outcome, ok, fault, create, record_bytes}
use asterx_driver.Tcp.Sockets as Sockets
use asterx_driver.Tcp.Sockets.{Net, Client, exhausted}
use asterx_driver.Tcp as Tcp
use asterx_driver.Tcp.{connect, read_some}
use asterx_driver.Tcp.Write.{QuietFrom}
use asterx_driver.Tcp.Connection.{tcp_link}

-- The system calls of the two connections, the recorder's system, and `g_stop` at its n-th reading.
pub record Environment : Type 0 where
  pub ctrl_net : Net
  pub data_net : Net
  pub quiet : ℕ
  pub quiet_from : QuietFrom quiet ctrl_net
  pub os : Os
  pub g_stop : ℕ → Bool

pub record World : Type 0 where
  pub ctrl : Client
  pub data_client : Client
  pub recorder : Option Recorder

-- The process ends with a code, has not ended yet, or has undefined behaviour.
pub data Finish : Type 0 where
  exited : ℕ → World → Finish
  running undefined : Finish

-- A `TcpClient` that is not connected.
abbrev pub new_client : Client
new_client = record { fd = none; sent = []; received = []; open_sockets = 0; calls = 0 }

abbrev pub initial : World
initial = record { ctrl = new_client; data_client = new_client; recorder = none }

-- The objects of `main` are destroyed: their destructors close the file and the sockets.
abbrev pub close_recorder : Option Recorder → Option Recorder
close_recorder none = none
close_recorder (some r) = some (Recording.close r)

abbrev pub leave : ℕ → Client → Client → Option Recorder → Finish
leave code c d recorder =
    exited code
      (record { ctrl = Tcp.close c; data_client = Tcp.close d; recorder = close_recorder recorder })

-- `std::chrono::seconds` in the unit of the clock, where less than zero acts as zero.
abbrev pub nanoseconds : ℤ → ℕ
nanoseconds (pos n) = n * 1000000000
nanoseconds (negsuc n) = 0

abbrev pub recorder_config : {D : Type 0} → AppConfig D → Config
recorder_config cfg = record {
  output_dir = cfg.output_dir;
  file_prefix = cfg.file_prefix;
  rotate_bytes = cfg.rotate_bytes;
  rotate_interval = nanoseconds cfg.rotate_interval_seconds;
}

-- How the recorder loop ends: with `break` or a signal, with an exception of the recorder, or not.
pub data LoopEnd : Type 0 where
  stopped : Client → Recorder → LoopEnd
  broken : Client → Recorder → LoopEnd
  looping faulty : LoopEnd

module _ (env : Environment) where
  abbrev pub ctrl_link : Link.Link Client
  ctrl_link = tcp_link env.ctrl_net env.quiet env.quiet_from

  abbrev pub after_record : (Client → Recorder → LoopEnd) → Client → Outcome (Unit {0}) → LoopEnd
  after_record k d (ok u r) = k d r
  after_record k d (Recording.thrown e r) = broken d r
  after_record k d fault = faulty

  -- `read_some` has no loop of its own.
  abbrev pub after_read : (Client → Recorder → LoopEnd) → Recorder → Sockets.End Bytes → LoopEnd
  after_read k r (Sockets.returned [] d) = stopped d r
  after_read k r (Sockets.returned (b ∷ bytes) d) =
      after_record k d (record_bytes env.os (b ∷ bytes) r)
  after_read k r (Sockets.thrown e d) = stopped d r
  after_read k r exhausted = looping

  -- `while (!g_stop)`, at the n-th reading of `g_stop`.
  unfoldable pub receive_loop : ℕ → ℕ → Client → Recorder → LoopEnd
  receive_loop zero n d r = looping
  receive_loop (suc fuel) n d r =
      let next = after_read (receive_loop fuel (n + 1)) r (read_some env.data_net 65536 10000 d) in
      if env.g_stop n then stopped d r else next

  -- The end of the `try` block, and the `catch` block.
  abbrev pub after_loop : Wire Client → LoopEnd → Finish
  after_loop w (stopped d r) =
      leave 0 (wire_of (stop_streams ctrl_link w)).conn d (some (Recording.close r))
  after_loop w (broken d r) = leave 1 w.conn d (some r)
  after_loop w looping = running
  after_loop w faulty = undefined

  module _ (fuel : ℕ) where
    abbrev pub after_create : Wire Client → Client → Outcome (Unit {0}) → Finish
    after_create w d (ok u r) = after_loop w (receive_loop fuel 0 d r)
    after_create w d (Recording.thrown e r) = leave 1 w.conn d none
    after_create w d fault = undefined

    abbrev pub after_data : Config → Wire Client → Sockets.End (Unit {0}) → Finish
    after_data cfg w (Sockets.returned u d) = after_create w d (create env.os cfg)
    after_data cfg w (Sockets.thrown e d) = leave 1 w.conn d none
    after_data cfg w exhausted = running

    abbrev pub after_configure : Config → Link.End Client (Unit {0}) → Finish
    after_configure cfg (Link.returned u w) = after_data cfg w (connect env.data_net new_client)
    after_configure cfg (Link.thrown e w) = leave 1 w.conn new_client none

    module _ {D : Type 0} (num : Numbers D) where
      abbrev pub configure : AppConfig D → M Client (Unit {0})
      configure cfg =
          login ctrl_link 5000 cfg.user cfg.password >> apply ctrl_link 3000 num cfg.receiver

      abbrev pub after_ctrl : AppConfig D → Sockets.End (Unit {0}) → Finish
      after_ctrl cfg (Sockets.returned u c) =
          after_configure (recorder_config cfg) (configure cfg (record { sent = []; conn = c }))
      after_ctrl cfg (Sockets.thrown e c) = leave 1 c new_client none
      after_ctrl cfg exhausted = running

      -- The `try` block of `main`.
      unfoldable pub session : AppConfig D → Finish
      session cfg = after_ctrl cfg (connect env.ctrl_net new_client)
