-- ===== src/Main.antt =====
-- src/main.cpp: the command line, and the session that composes the other parts.
mod Tests
pub mod Arguments
pub mod CommandLine
pub mod Session
pub mod Loop
pub mod Control
pub mod Records
pub mod Ends
pub mod Codes
use asterx_driver.Base.{List, [], Bytes, if◌then◌else◌, ℕ}
use asterx_driver.Receiver.Settings.{Numbers}
use asterx_driver.AppConfig.Document.{Yaml, Loaded, loaded, failed}
use asterx_driver.AppConfig.{AppConfig, load_app_config}
use asterx_driver.Receiver.Commands.{is_empty}
use asterx_driver.Recorder.{Os}
use asterx_driver.Tcp.Sockets.{Net}
use asterx_driver.Tcp.Write.{QuietFrom}
use asterx_driver.Main.Arguments.{Parsed, exits, configured, parse_args}
use asterx_driver.Main.Session.{Environment, Finish, exited, initial, session}

abbrev pub with_level : {D : Type 0} → Bytes → AppConfig D → AppConfig D
with_level level cfg = if is_empty level then cfg else record cfg { log_level = level }

module _ {N D : Type 0} (yaml : Yaml N D) (num : Numbers D) (env : Environment) (fuel : ℕ) where
  abbrev pub after_load : Bytes → Loaded (AppConfig D) → Finish
  after_load level (failed e) = exited 2 initial
  after_load level (loaded cfg) = session env fuel num (with_level level cfg)

  abbrev pub after_arguments : Parsed → Finish
  after_arguments (exits code) = exited code initial
  after_arguments (configured path level) = after_load level (load_app_config yaml num path)

  pub main : List Bytes → Finish
  main args = after_arguments (parse_args args [] [])
