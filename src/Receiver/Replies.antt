-- ===== src/Receiver/Replies.antt =====
-- src/receiver_config.cpp: what the replies of the receiver must say.
use asterx_driver.Base.{
  Bool, false, not, ◌&&◌, List, [], ◌∷◌, ◌++◌, map, Option, none, some, ℕ, ltb, if◌then◌else◌, ◌||◌,
  ◌==◌, ◌-◌, drop, length, Bytes, text, trim, getlines, after_first, before_first,
}
use asterx_driver.Receiver.Settings.{
  ℤ, Numbers, Vec3, AttitudeOffset, ReceiverSettings, ReceiverCapabilities, ConfigError, no_key,
  too_few_fields, bad_integer, bad_number, orientation_mismatch, lever_arm_mismatch,
  attitude_mismatch, offset_mismatch, Result, ok, error, require, ◌>>=◌, ◌>>◌,
}
use asterx_driver.Receiver.Commands.{split, equals_ci, starts_with_ci, close_enough}

-- The loop over the lines of `find_config_line_payload`.
unfoldable pub find_line : List Bytes → Bytes → Result Bytes
find_line [] prefix = error no_key
find_line (line ∷ lines) prefix =
    let later = find_line lines prefix in
    if starts_with_ci (trim line) prefix
    then ok (trim (drop (length prefix) (trim line)))
    else later

unfoldable pub find_config_line_payload : Bytes → Bytes → Result Bytes
find_config_line_payload reply key = find_line (getlines b'\n' reply) (key ++ text ",")

abbrev blank : ℕ → ℕ
blank c = if c == b'\r' || c == b'\n' || c == b'\t' then 32 else c

abbrev payload_of : Option Bytes → Result Bytes
payload_of none = error no_key
payload_of (some rest) = ok (map blank (before_first b'>' rest))

unfoldable pub compact_payload_after_key : Bytes → Bytes → Result Bytes
compact_payload_after_key reply key = payload_of (after_first (key ++ text ",") reply)

-- `fields[i]`, for the indices that the number of fields allows.
abbrev field : List Bytes → ℕ → Bytes
field fields i = elim (drop i fields) [ [] ↦ [] | f ∷ rest ↦ f ]

unfoldable pub has_antenna : List Bytes → Bytes → Bool
has_antenna [] name = false
has_antenna (antenna ∷ antennas) name = equals_ci antenna name || has_antenna antennas name

abbrev parsed {ℓ} : {A : Type ℓ} → Option A → ConfigError → Result A
parsed none e = error e
parsed (some v) e = ok v

module _ {D : Type 0} (num : Numbers D) where
  unfoldable pub parse_int_prefix : Bytes → Result ℤ
  parse_int_prefix s = parsed (num.read_int (trim s)) bad_integer

  unfoldable pub parse_double_prefix : Bytes → Result D
  parse_double_prefix s = parsed (num.read_double (trim s)) bad_number

  -- The last three of the fields are the intervals.
  abbrev capabilities : List Bytes → Result ReceiverCapabilities
  capabilities fields = do
    require (not (ltb (length fields) 7)) too_few_fields
    let antennas = split (field fields 0) b'+'
    measurement ← parse_int_prefix (field fields (length fields - 3))
    pvt ← parse_int_prefix (field fields (length fields - 2))
    ins ← parse_int_prefix (field fields (length fields - 1))
    ok (record {
      has_main = has_antenna antennas (text "Main");
      has_aux1 = has_antenna antennas (text "Aux1");
      measurement_interval_ms = measurement;
      pvt_interval_ms = pvt;
      ins_interval_ms = ins;
    })

  unfoldable pub parse_receiver_capabilities_reply : Bytes → Result ReceiverCapabilities
  parse_receiver_capabilities_reply reply = do
    payload ← compact_payload_after_key reply (text "ReceiverCapabilities")
    capabilities (split payload b',')

  -- The three angles, when the orientation is not the sensor's own.
  unfoldable pub verify_theta : List Bytes → ReceiverSettings D → Result (Unit {0})
  verify_theta fields settings = do
    require (not (ltb (length fields) 4)) too_few_fields
    theta_x ← parse_double_prefix (field fields 1)
    theta_y ← parse_double_prefix (field fields 2)
    theta_z ← parse_double_prefix (field fields 3)
    require
        (close_enough num theta_x settings.theta_x_deg
          && close_enough num theta_y settings.theta_y_deg
          && close_enough num theta_z settings.theta_z_deg)
        orientation_mismatch

  unfoldable pub verify_orientation : List Bytes → ReceiverSettings D → Result (Unit {0})
  verify_orientation [] settings = error too_few_fields
  verify_orientation (mode ∷ rest) settings = do
    require (equals_ci mode settings.imu_orientation_mode) orientation_mismatch
    if equals_ci settings.imu_orientation_mode (text "SensorDefault")
        then ok tt
        else verify_theta (mode ∷ rest) settings

  unfoldable pub verify_imu_orientation_reply : Bytes → ReceiverSettings D → Result (Unit {0})
  verify_imu_orientation_reply reply settings = do
    payload ← find_config_line_payload reply (text "IMUOrientation")
    verify_orientation (split payload b',') settings

  unfoldable pub verify_ins_ant_lever_arm_reply : Bytes → Vec3 D → Result (Unit {0})
  verify_ins_ant_lever_arm_reply reply expected = do
    payload ← find_config_line_payload reply (text "INSAntLeverArm")
    let fields = split payload b','
    require (not (ltb (length fields) 3)) too_few_fields
    x ← parse_double_prefix (field fields 0)
    y ← parse_double_prefix (field fields 1)
    z ← parse_double_prefix (field fields 2)
    require
        (close_enough num x expected.x
          && close_enough num y expected.y
          && close_enough num z expected.z)
        lever_arm_mismatch

  unfoldable pub verify_attitude_offset_reply : Bytes → AttitudeOffset D → Result (Unit {0})
  verify_attitude_offset_reply reply expected = do
    payload ← find_config_line_payload reply (text "AttitudeOffset")
    let fields = split payload b','
    require (not (ltb (length fields) 2)) too_few_fields
    heading ← parse_double_prefix (field fields 0)
    pitch ← parse_double_prefix (field fields 1)
    require
        (close_enough num heading expected.heading_deg && close_enough num pitch expected.pitch_deg)
        offset_mismatch

abbrev verify_mode : List Bytes → Bytes → Result (Unit {0})
verify_mode [] expected_mode = error too_few_fields
verify_mode (mode ∷ rest) expected_mode = require (equals_ci mode expected_mode) attitude_mismatch

unfoldable pub verify_gnss_attitude_reply : Bytes → Bytes → Result (Unit {0})
verify_gnss_attitude_reply reply expected_mode = do
  payload ← find_config_line_payload reply (text "GNSSAttitude")
  verify_mode (split payload b',') expected_mode
