-- ===== src/Receiver/Tests.antt =====
-- The theorems on the receiver's configuration at a concrete receiver, and runs of the code.
use mathlib.Core.List.{flatten}
use asterx_driver.Base.{Bool, true, false, [], ◌∷◌, map, text, to_string, ◌≡◌, refl, arith}
use asterx_driver.Receiver.Settings.{pos, ConfigError, ok}
use asterx_driver.Receiver.Commands.{
  join, starts_with_ci, split, enforce_command_length, is_valid_sbf_interval,
  build_sbf_output_command, check_streams, fmt_command_decimal, close_enough, in_lever_range,
  set_vec3_command, set_orientation_command, build_ins_ant_lever_arm_command,
  validate_receiver_settings, sbf_output_text,
}
use asterx_driver.Receiver.Replies.{
  find_line, find_config_line_payload, compact_payload_after_key, has_antenna, parse_int_prefix,
  parse_double_prefix, parse_receiver_capabilities_reply, verify_theta, verify_orientation,
  verify_imu_orientation_reply, verify_ins_ant_lever_arm_reply, verify_attitude_offset_reply,
  verify_gnss_attitude_reply,
}
use asterx_driver.Receiver.Session.{
  send_command, clear_streams, send_streams, check_capabilities, reset_tracking, configure_imu,
  configure_attitude, apply, line, stop_streams,
}
use asterx_driver.Receiver.Link.{Wire, End, returned, thrown, config}
use asterx_driver.Receiver.Script.{SendsFrom, clear_script}
use asterx_driver.Receiver.Valid.{
  ValidStream, ValidSettings, build_sbf_output_command_iff, validate_receiver_settings_iff,
}
use asterx_driver.Receiver.Login.{login-SendsFrom}
use asterx_driver.Receiver.Session.{login, login_command}
use asterx_driver.Receiver.Apply.{script, apply-SendsFrom}
use asterx_driver.Receiver.Stop.{apply_invalid, stop_streams_sent}
use asterx_driver.Receiver.Example.{
  thousandths, settings_with, stream, receiver_with, receiver, Desk, idle_wire,
}

abbrev ends : {S A : Type 0} → End S A → Bool
ends (returned a w) = true
ends (thrown e w) = false

-- The receiver is configured, unless it has no second antenna.
configured : ends (apply receiver 3000 thousandths (settings_with 0) idle_wire) ≡ true
unfolding join starts_with_ci split enforce_command_length is_valid_sbf_interval
    build_sbf_output_command check_streams fmt_command_decimal close_enough in_lever_range
    set_vec3_command set_orientation_command build_ins_ant_lever_arm_command
    validate_receiver_settings find_line find_config_line_payload compact_payload_after_key
    has_antenna parse_int_prefix parse_double_prefix parse_receiver_capabilities_reply verify_theta
    verify_orientation verify_imu_orientation_reply verify_ins_ant_lever_arm_reply
    verify_attitude_offset_reply verify_gnss_attitude_reply send_command clear_streams send_streams
    check_capabilities reset_tracking configure_imu configure_attitude apply to_string
configured = refl

not_dual :
    ends (apply (receiver_with (text "Main")) 3000 thousandths (settings_with 0) idle_wire) ≡ false
unfolding join starts_with_ci split enforce_command_length is_valid_sbf_interval
    build_sbf_output_command check_streams fmt_command_decimal close_enough in_lever_range
    set_vec3_command set_orientation_command build_ins_ant_lever_arm_command
    validate_receiver_settings find_line find_config_line_payload compact_payload_after_key
    has_antenna parse_int_prefix parse_double_prefix parse_receiver_capabilities_reply verify_theta
    verify_orientation verify_imu_orientation_reply verify_ins_ant_lever_arm_reply
    verify_attitude_offset_reply verify_gnss_attitude_reply send_command clear_streams send_streams
    check_capabilities reset_tracking configure_imu configure_attitude apply to_string
not_dual = refl

apply-SendsFrom_example :
    SendsFrom receiver [] idle_wire
      (script thousandths (settings_with 0))
      (apply receiver 3000 thousandths (settings_with 0) idle_wire)
unfolding flatten
apply-SendsFrom_example =
    apply-SendsFrom receiver [] 3000 thousandths (settings_with 0) idle_wire refl

too_high : ¬ ValidSettings thousandths (settings_with 61)
too_high v = let (n, e, lo, hi) = v.1.1.1.1.1.1.0 in let e' : n ≡ 61 = cc in absurd (omega arith)

apply_invalid_example :
    (e : ConfigError) × (apply receiver 3000 thousandths (settings_with 61) idle_wire
      ≡ thrown (config e) idle_wire)
apply_invalid_example =
    apply_invalid receiver thousandths 3000 (settings_with 61) idle_wire too_high

stop_streams_sent_example :
    (w : Wire Desk) × (stop_streams receiver idle_wire ≡ returned tt w)
    × (w.sent ≡ map line (clear_script 10 1))
stop_streams_sent_example = stop_streams_sent receiver idle_wire

build_sbf_output_command_iff_example :
    ValidStream stream (pos 1)
    × (text "setSBFOutput, Stream2, IPS1, MeasEpoch+EndOfMeas, OnChange"
        ≡ sbf_output_text stream (pos 1))
unfolding build_sbf_output_command is_valid_sbf_interval enforce_command_length join to_string
build_sbf_output_command_iff_example =
    (build_sbf_output_command_iff stream (pos 1)
        (text "setSBFOutput, Stream2, IPS1, MeasEpoch+EndOfMeas, OnChange")).0
      refl

valid : validate_receiver_settings thousandths (settings_with 60) ≡ ok tt
unfolding join starts_with_ci split enforce_command_length is_valid_sbf_interval
    build_sbf_output_command check_streams fmt_command_decimal close_enough in_lever_range
    set_vec3_command set_orientation_command build_ins_ant_lever_arm_command
    validate_receiver_settings to_string
valid = refl

validate_receiver_settings_iff_example : ValidSettings thousandths (settings_with 60)
validate_receiver_settings_iff_example =
    (validate_receiver_settings_iff thousandths (settings_with 60)).0 valid

login-SendsFrom_example :
    SendsFrom receiver [] idle_wire
      (login_command (text "admin") (text "secret") ∷ [])
      (login receiver 5000 (text "admin") (text "secret") idle_wire)
unfolding flatten
login-SendsFrom_example =
    login-SendsFrom receiver [] 5000 (text "admin") (text "secret") idle_wire refl

logged_in : ends (login receiver 5000 (text "admin") (text "secret") idle_wire) ≡ true
unfolding login send_command
logged_in = refl
