-- ===== src/Main/Tests.antt =====
-- The program at a receiver that is configured and then sends two frames.
use asterx_driver.Base.{
  ℕ, false, List, [], ◌∷◌, ◌++◌, Bytes, text, to_string, ltb, ◌≡◌, refl, arith,
}
use asterx_driver.Receiver.Example.{thousandths, settings_with}
use asterx_driver.AppConfig.{
  AppConfig, default_config, load_app_config, parse_connection, parse_output, parse_log, finish,
}
use asterx_driver.AppConfig.Sections.{
  parse_orientation, parse_imu, parse_attitude, parse_tracking, read_stream, parse_streams,
  parse_receiver,
}
use asterx_driver.Receiver.Commands.{
  join, enforce_command_length, is_valid_sbf_interval, build_sbf_output_command, check_streams,
  in_lever_range, validate_receiver_settings,
}
use asterx_driver.AppConfig.Document.{field, read_port, read_vec3, read_attitude_offset}
use asterx_driver.AppConfig.Example.{yaml_with, document_with, empty_map}
use asterx_driver.Recorder.Example.{granting, granting-Reliable, frame_bytes}
use asterx_driver.Tcp.Example.{net_with, QuietFrom-1}
use asterx_driver.Main.Arguments.{parse_args}
use asterx_driver.Main.CommandLine.{Setting, written, path_of, level_of, parse_args_iff}
use asterx_driver.Receiver.Commands.{is_empty}
use asterx_driver.Main.Session.{Environment, exited, initial, session}
use asterx_driver.Main.{main}
use asterx_driver.Main.Records.{Records, session-Records}
use asterx_driver.Main.Ends.{HasEnded, session-HasEnded}
use asterx_driver.Main.Codes.{main_refused_iff}

-- One reply that answers each query.
abbrev reply : Bytes
reply =
    text "$R; ok\r\n  ReceiverCapabilities, Main+Aux1, GPS, SBF, x, 5, 10, 5\r\n"
    ++ text "  IMUOrientation, manual, 0.000, 90.000, 0.000\r\n"
    ++ text "  INSAntLeverArm, 1.000, 0.500, 2.250\r\n"
    ++ text "  GNSSAttitude, MultiAntenna\r\n"
    ++ text "  AttitudeOffset, 90.000, 0.000\r\nIP10>"

abbrev env : Environment
env = record {
  ctrl_net = net_with reply;
  data_net = net_with (frame_bytes ++ frame_bytes);
  quiet = 1;
  quiet_from = QuietFrom-1 reply;
  os = granting;
  g_stop = ltb 1;
}

abbrev cfg : AppConfig ℕ
cfg = record (default_config thousandths) {
  receiver = settings_with 30;
  user = text "u";
  password = text "p";
}

session-Records_example : Records thousandths cfg (session env 3 thousandths cfg)
session-Records_example = session-Records thousandths cfg env granting-Reliable 3

session-HasEnded_example : HasEnded (session env 3 thousandths cfg)
session-HasEnded_example = session-HasEnded env 3 2 refl (omega arith) thousandths cfg

parse_args_iff_example :
    (settings : List Setting) × ((text "--config" ∷ text "a" ∷ text "--config" ∷ text "b" ∷ [])
      ≡ written settings)
    × (text "b" ≡ path_of [] settings)
    × ([] ≡ level_of [] settings)
    × (is_empty (text "b") ≡ false)
unfolding parse_args
parse_args_iff_example =
    (parse_args_iff (text "--config" ∷ text "a" ∷ text "--config" ∷ text "b" ∷ []) (text "b") []).0
      refl

-- A configuration without a lever arm is refused.
main_refused_iff_example :
    main (yaml_with (document_with empty_map)) thousandths env 3 (text "--config" ∷ text "c" ∷ [])
    ≡ exited 2 initial
unfolding parse_args field read_port read_vec3 read_attitude_offset parse_orientation parse_imu
    parse_attitude parse_tracking read_stream parse_streams parse_receiver parse_connection
    parse_output parse_log finish load_app_config join enforce_command_length is_valid_sbf_interval
    build_sbf_output_command check_streams in_lever_range validate_receiver_settings to_string
main_refused_iff_example =
    (main_refused_iff (yaml_with (document_with empty_map)) thousandths env granting-Reliable 3
        (text "--config" ∷ text "c" ∷ []) initial).1
      (text "c", [], _, refl, refl, refl)
