-- ===== src/Receiver/Commands.antt =====
-- src/receiver_config.cpp: the text helpers, the commands, and `validate_receiver_settings`.
use asterx_driver.Base.{
  Bool, true, false, not, ◌&&◌, ◌||◌, List, [], ◌∷◌, ◌++◌, map, ℕ, leb, ltb, if◌then◌else◌, length,
  take, Bytes, text, text_eq, to_lower, trim, getlines,
}
use asterx_driver.Receiver.Settings.{
  ℤ, Numbers, Vec3, SbfStream, ReceiverSettings, bad_ips_id, bad_startup_mode, bad_orientation_mode,
  no_lever_arm, bad_lever_arm, bad_attitude_mode, bad_cn0_mask, no_streams, bad_stream_id,
  no_blocks, bad_interval, too_long, Result, ok, require, in_range, int_to_string, ◌>>=◌, ◌>>◌,
}

abbrev max_ascii_command_length : ℕ
max_ascii_command_length = 2000

unfoldable pub join : List Bytes → ℕ → Bytes
join [] sep = []
join (part ∷ []) sep = part
join (part ∷ next ∷ parts) sep = part ++ sep ∷ join (next ∷ parts) sep

abbrev pub lower_copy : Bytes → Bytes
lower_copy s = map to_lower s

abbrev pub equals_ci : Bytes → Bytes → Bool
equals_ci a b = text_eq (lower_copy a) (lower_copy b)

unfoldable pub starts_with_ci : Bytes → Bytes → Bool
starts_with_ci s prefix =
    if ltb (length s) (length prefix)
    then false
    else text_eq (lower_copy (take (length prefix) s)) (lower_copy prefix)

unfoldable pub split : Bytes → ℕ → List Bytes
split s sep = map trim (getlines sep s)

unfoldable pub enforce_command_length : Bytes → Result (Unit {0})
enforce_command_length cmd = require (leb (length cmd) max_ascii_command_length) too_long

abbrev pub allowed : List Bytes
allowed =
    text "onchange"
    ∷ text "off"
    ∷ text "msec5"
    ∷ text "msec10"
    ∷ text "msec20"
    ∷ text "msec40"
    ∷ text "msec50"
    ∷ text "msec100"
    ∷ text "msec200"
    ∷ text "msec500"
    ∷ text "sec1"
    ∷ text "sec2"
    ∷ text "sec5"
    ∷ text "sec10"
    ∷ text "sec15"
    ∷ text "sec30"
    ∷ text "sec60"
    ∷ text "min2"
    ∷ text "min5"
    ∷ text "min10"
    ∷ text "min15"
    ∷ text "min30"
    ∷ text "min60"
    ∷ []

abbrev pub is_in : List Bytes → Bytes → Bool
is_in [] s = false
is_in (t ∷ ts) s = text_eq t s || is_in ts s

unfoldable pub is_valid_sbf_interval : Bytes → Bool
is_valid_sbf_interval interval = is_in allowed (lower_copy interval)

abbrev pub is_empty {ℓ} : {A : Type ℓ} → List A → Bool
is_empty [] = true
is_empty (x ∷ xs) = false

-- The text that `build_sbf_output_command` builds.
abbrev pub sbf_output_text : SbfStream → ℤ → Bytes
sbf_output_text stream ips_id =
    text "setSBFOutput, Stream"
    ++ int_to_string stream.stream_id
    ++ text ", IPS"
    ++ int_to_string ips_id
    ++ text ", "
    ++ join stream.blocks b'+'
    ++ text ", "
    ++ stream.interval

unfoldable pub build_sbf_output_command : SbfStream → ℤ → Result Bytes
build_sbf_output_command stream ips_id = do
  require (in_range 1 10 stream.stream_id) bad_stream_id
  require (in_range 1 5 ips_id) bad_ips_id
  require (not (is_empty stream.blocks)) no_blocks
  require (is_valid_sbf_interval stream.interval) bad_interval
  enforce_command_length (sbf_output_text stream ips_id)
  ok (sbf_output_text stream ips_id)

-- `for (const auto &s: streams) (void) build_sbf_output_command(s, ips_id)`.
unfoldable pub check_streams : List SbfStream → ℤ → Result (Unit {0})
check_streams [] ips_id = ok tt
check_streams (s ∷ streams) ips_id = do
  cmd ← build_sbf_output_command s ips_id
  check_streams streams ips_id

module _ {D : Type 0} (num : Numbers D) where
  unfoldable pub fmt_command_decimal : D → Bytes
  fmt_command_decimal v =
      num.print_fixed3 (if num.lt (num.fabs v) num.half_milli then num.zero else v)

  unfoldable pub close_enough : D → D → Bool
  close_enough a b = num.le (num.fabs (num.minus a b)) num.milli

  unfoldable pub in_lever_range : D → Bool
  in_lever_range v = num.le num.minus_hundred v && num.le v num.hundred

  unfoldable pub set_vec3_command : Bytes → Vec3 D → Bytes
  set_vec3_command name v =
      name
      ++ text ", "
      ++ fmt_command_decimal v.x
      ++ text ", "
      ++ fmt_command_decimal v.y
      ++ text ", "
      ++ fmt_command_decimal v.z

  unfoldable pub set_orientation_command : ReceiverSettings D → Bytes
  set_orientation_command settings =
      if equals_ci settings.imu_orientation_mode (text "SensorDefault")
      then text "setIMUOrientation, SensorDefault"
      else text "setIMUOrientation, "
        ++ settings.imu_orientation_mode
        ++ text ", "
        ++ fmt_command_decimal settings.theta_x_deg
        ++ text ", "
        ++ fmt_command_decimal settings.theta_y_deg
        ++ text ", "
        ++ fmt_command_decimal settings.theta_z_deg

  unfoldable pub build_ins_ant_lever_arm_command : Vec3 D → Bytes
  build_ins_ant_lever_arm_command lever_arm_m =
      set_vec3_command (text "setINSAntLeverArm") lever_arm_m

  unfoldable pub validate_receiver_settings : ReceiverSettings D → Result (Unit {0})
  validate_receiver_settings settings = do
    require (in_range 1 5 settings.ips_id) bad_ips_id
    require
        (equals_ci settings.imu_startup_data_mode (text "Boot")
          || equals_ci settings.imu_startup_data_mode (text "GnssTimeKnown"))
        bad_startup_mode
    require
        (equals_ci settings.imu_orientation_mode (text "SensorDefault")
          || equals_ci settings.imu_orientation_mode (text "manual")
          || equals_ci settings.imu_orientation_mode (text "fixed"))
        bad_orientation_mode
    require settings.ant_lever_arm_configured no_lever_arm
    require
        (in_lever_range settings.ant_lever_arm_m.x
          && in_lever_range settings.ant_lever_arm_m.y
          && in_lever_range settings.ant_lever_arm_m.z)
        bad_lever_arm
    require
        (equals_ci settings.gnss_attitude_mode (text "none")
          || equals_ci settings.gnss_attitude_mode (text "MultiAntenna"))
        bad_attitude_mode
    require (in_range 0 60 settings.cn0_mask_dbhz) bad_cn0_mask
    require (not (is_empty settings.streams)) no_streams
    check_streams settings.streams settings.ips_id
