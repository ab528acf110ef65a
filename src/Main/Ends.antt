-- ===== src/Main/Ends.antt =====
-- src/main.cpp: the session ends when a signal has come.
use asterx_driver.Base.{ℕ, ◌<◌, true, [], ◌≡◌, arith}
use asterx_driver.Receiver.Settings.{Numbers}
use asterx_driver.Receiver.Link as Link
use asterx_driver.Receiver.Link.{Wire}
use asterx_driver.AppConfig.{AppConfig}
use asterx_driver.Recorder as Recording
use asterx_driver.Recorder.{Config, Recorder, Outcome, create}
use asterx_driver.Tcp.Sockets as Sockets
use asterx_driver.Tcp.Sockets.{Client, exhausted}
use asterx_driver.Tcp.{connect}
use asterx_driver.Tcp.Opening.{Opens, connect-Opens}
use asterx_driver.Main.Session.{
  Environment, Finish, running, new_client, recorder_config, LoopEnd, stopped, broken, looping,
  faulty, receive_loop, after_loop, after_create, after_data, after_configure, configure,
  after_ctrl, session,
}
use asterx_driver.Main.Loop.{IsOver, receive_loop-IsOver}

abbrev pub HasEnded : Finish → Type 0
HasEnded running = ⊥
HasEnded _ = Unit

module _ (env : Environment) (fuel m : ℕ) (signal : env.g_stop m ≡ true) (enough : m < fuel) where
  after_loop-HasEnded : (w : Wire Client) (e : LoopEnd) → IsOver e → HasEnded (after_loop env w e)
  after_loop-HasEnded w (stopped d r) o = tt
  after_loop-HasEnded w (broken d r) o = tt
  after_loop-HasEnded w looping o = o
  after_loop-HasEnded w faulty o = tt

  after_create-HasEnded :
      (w : Wire Client) (d : Client) (o : Outcome (Unit {0}))
      → HasEnded (after_create env fuel w d o)
  after_create-HasEnded w d (Recording.ok u r) =
      after_loop-HasEnded w (receive_loop env fuel 0 d r)
        (receive_loop-IsOver env fuel 0 m d r signal (omega arith) (omega arith))
  after_create-HasEnded w d (Recording.thrown e r) = tt
  after_create-HasEnded w d Recording.fault = tt

  after_data-HasEnded :
      (cfg : Config) (w : Wire Client) (e : Sockets.End (Unit {0}))
      → Opens [] [] e
      → HasEnded (after_data env fuel cfg w e)
  after_data-HasEnded cfg w (Sockets.returned u d) o = after_create-HasEnded w d (create env.os cfg)
  after_data-HasEnded cfg w (Sockets.thrown x d) o = tt
  after_data-HasEnded cfg w exhausted o = o

  after_configure-HasEnded :
      (cfg : Config) (e : Link.End Client (Unit {0})) → HasEnded (after_configure env fuel cfg e)
  after_configure-HasEnded cfg (Link.returned u w) =
      after_data-HasEnded cfg w (connect env.data_net new_client)
        (connect-Opens env.data_net new_client)
  after_configure-HasEnded cfg (Link.thrown x w) = tt

  module _ {D : Type 0} (num : Numbers D) (cfg : AppConfig D) where
    after_ctrl-HasEnded :
        (e : Sockets.End (Unit {0})) → Opens [] [] e → HasEnded (after_ctrl env fuel num cfg e)
    after_ctrl-HasEnded (Sockets.returned u c) o =
        after_configure-HasEnded (recorder_config cfg)
          (configure env fuel num cfg (record { sent = []; conn = c }))
    after_ctrl-HasEnded (Sockets.thrown x c) o = tt
    after_ctrl-HasEnded exhausted o = o

    -- When `g_stop` is true at its `m`-th reading and the loop has fuel for more than `m` readings, the
    -- session ends.
    pub session-HasEnded : HasEnded (session env fuel num cfg)
    unfolding session
    session-HasEnded =
        after_ctrl-HasEnded (connect env.ctrl_net new_client)
          (connect-Opens env.ctrl_net new_client)
