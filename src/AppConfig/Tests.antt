-- ===== src/AppConfig/Tests.antt =====
-- `load_app_config` on a document, with a library that knows maps, sequences and texts.
use asterx_driver.Base.{Bool, true, false, text, to_string, ◌≡◌, refl}
use asterx_driver.Receiver.Example.{thousandths}
use asterx_driver.AppConfig.Document.{
  field, read_port, read_vec3, read_attitude_offset, Loaded, loaded, failed,
}
use asterx_driver.AppConfig.{parse_connection, parse_output, parse_log, finish, load_app_config}
use asterx_driver.AppConfig.Sections.{
  parse_orientation, parse_imu, parse_attitude, parse_tracking, read_stream, parse_streams,
  parse_receiver,
}
use asterx_driver.Receiver.Commands.{
  join, enforce_command_length, is_valid_sbf_interval, build_sbf_output_command, check_streams,
  in_lever_range, validate_receiver_settings,
}
use asterx_driver.AppConfig.Accepted.{Loads, Accepted, load_app_config-Loads}
use asterx_driver.AppConfig.Example.{empty_map, yaml_with, document_with, legacy}

abbrev is_loaded : {A : Type 0} → Loaded A → Bool
is_loaded (loaded a) = true
is_loaded (failed e) = false

load_app_config-Loads_example :
    Loads
      (Accepted (yaml_with legacy) thousandths)
      (load_app_config (yaml_with legacy) thousandths (text "c.yaml"))
load_app_config-Loads_example = load_app_config-Loads (yaml_with legacy) thousandths (text "c.yaml")

-- The older flag is accepted, and a document without a lever arm is not.
legacy_loads : is_loaded (load_app_config (yaml_with legacy) thousandths (text "c.yaml")) ≡ true
unfolding field read_port read_vec3 read_attitude_offset parse_orientation parse_imu parse_attitude
    parse_tracking read_stream parse_streams parse_receiver parse_connection parse_output parse_log
    finish load_app_config join enforce_command_length is_valid_sbf_interval
    build_sbf_output_command check_streams in_lever_range validate_receiver_settings to_string
legacy_loads = refl

no_lever_arm_loads :
    is_loaded (load_app_config (yaml_with (document_with empty_map)) thousandths (text "c.yaml"))
    ≡ false
unfolding field read_port read_vec3 read_attitude_offset parse_orientation parse_imu parse_attitude
    parse_tracking read_stream parse_streams parse_receiver parse_connection parse_output parse_log
    finish load_app_config join enforce_command_length is_valid_sbf_interval
    build_sbf_output_command check_streams in_lever_range validate_receiver_settings to_string
no_lever_arm_loads = refl
