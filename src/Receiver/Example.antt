-- ===== src/Receiver/Example.antt =====
-- A receiver that answers as it should, and settings for it. Numbers are thousandths that are not
-- negative, with three decimals in texts.
use asterx_driver.Base.{
  ℕ, ◌+◌, ◌-◌, ◌*◌, ◌/◌, ◌%◌, true, ◌&&◌, List, [], ◌∷◌, ◌++◌, some, ltb, leb, if◌then◌else◌, Bytes,
  text, text_eq, to_string, refl,
}
use asterx_driver.Receiver.Settings.{Numbers, ReceiverSettings, SbfStream, pos}
use asterx_driver.Receiver.Session.{line}
use asterx_driver.Receiver.Link.{Link, answered, Wire}

abbrev pub read_from : ℕ → Bytes → ℕ
read_from acc [] = acc
read_from acc (c ∷ s) =
    let next = read_from (acc * 10 + (c - b'0')) s in
    let skip = read_from acc s in if leb b'0' c && leb c b'9' then next else skip

abbrev pub thousandths : Numbers ℕ
thousandths = record {
  zero = 0;
  hundred = 100000;
  minus_hundred = 0;
  milli = 1;
  half_milli = 1;
  lt = ltb;
  le = leb;
  minus = λ a b. (a - b) + (b - a);
  fabs = λ a. a;
  print_fixed3 = λ v.
      to_string (v / 1000)
      ++ (b'.' ∷ (b'0' + v / 100 % 10) ∷ (b'0' + v / 10 % 10) ∷ (b'0' + v % 10) ∷ []);
  read_double = λ s. some (read_from 0 s);
  read_int = λ s. some (pos (read_from 0 s));
}

abbrev pub stream : SbfStream
stream = record {
  stream_id = pos 2;
  blocks = text "MeasEpoch" ∷ text "EndOfMeas" ∷ [];
  interval = text "OnChange";
}

abbrev pub settings_with : ℕ → ReceiverSettings ℕ
settings_with cn0_mask = record {
  user = text "admin";
  password = text "admin";
  ips_id = pos 1;
  ips_port = 28785;
  streams = stream ∷ [];
  use_sensor_default = true;
  imu_startup_data_mode = text "Boot";
  imu_orientation_mode = text "manual";
  theta_x_deg = 0;
  theta_y_deg = 90000;
  theta_z_deg = 0;
  ant_lever_arm_m = record { x = 1000; y = 500; z = 2250 };
  ant_lever_arm_configured = true;
  require_aux1 = true;
  gnss_attitude_mode = text "MultiAntenna";
  attitude_offset_deg = record { heading_deg = 90000; pitch_deg = 0 };
  configure_all_tracking = true;
  cn0_mask_dbhz = pos cn0_mask;
}

abbrev pub answer : Bytes → List (Bytes × Bytes) → Bytes
answer cmd [] = text "$R; ok\r\nIP10>"
answer cmd ((key, reply) ∷ replies) =
    let rest = answer cmd replies in if text_eq cmd (line key) then reply else rest

abbrev pub replies_with : Bytes → List (Bytes × Bytes)
replies_with antennas =
    (
      text "getReceiverCapabilities",
      text "$R; getReceiverCapabilities\r\n  ReceiverCapabilities, "
          ++ antennas
          ++ text ", GPS, SBF, x, 5, 10, 5\r\nIP10>",
    )
    ∷ (
      text "getIMUOrientation",
      text "$R; getIMUOrientation\r\n  IMUOrientation, manual, 0.000, 90.000, 0.000\r\nIP10>",
    )
    ∷ (
      text "getINSAntLeverArm",
      text "$R; getINSAntLeverArm\r\n  INSAntLeverArm, 1.000, 0.500, 2.250\r\nIP10>",
    )
    ∷ (text "getGNSSAttitude", text "$R; getGNSSAttitude\r\n  GNSSAttitude, MultiAntenna\r\nIP10>")
    ∷ (
      text "getAttitudeOffset",
      text "$R; getAttitudeOffset\r\n  AttitudeOffset, 90.000, 0.000\r\nIP10>",
    )
    ∷ []

-- What was put out, and the last text of it.
abbrev pub Desk : Type 0
Desk = Bytes × Bytes

abbrev pub receiver_with : Bytes → Link Desk
receiver_with antennas = record {
  write_all = λ s desk. answered tt (desk.0 ++ s, s);
  read_until = λ terminator timeout desk. answered (answer (desk.1) (replies_with antennas)) desk;
  output = λ desk. desk.0;
  write_all-Puts = λ bytes desk. refl;
  read_until-output = λ terminator timeout desk. refl;
}

abbrev pub receiver : Link Desk
receiver = receiver_with (text "Main+Aux1")

abbrev pub idle_wire : Wire Desk
idle_wire = record { sent = []; conn = ([], []) }
