-- ===== src/AppConfig.antt =====
-- src/app_config.hpp and app_config.cpp: `load_app_config`. The YAML library is a parameter.
mod Tests
pub mod Example
pub mod Document
pub mod Sections
pub mod Accepted
use asterx_driver.Base.{
  ℕ, ◌*◌, ◌^◌, Bool, true, false, List, [], ◌∷◌, Option, none, some, if◌then◌else◌, Bytes, text,
}
use asterx_driver.Receiver.Settings.{
  ℤ, pos, Numbers, Vec3, AttitudeOffset, ReceiverSettings, SbfStream, Result, ok, error,
}
use asterx_driver.Receiver.Commands.{validate_receiver_settings}
use asterx_driver.AppConfig.Document.{
  Yaml, LoadError, no_file, config, Loaded, loaded, failed, ◌>>=◌, ◌>>◌, node, field, section_of,
  as_string, as_int, as_uint64, read_port,
}
use asterx_driver.AppConfig.Sections.{parse_receiver}

pub record AppConfig (D : Type 0) : Type 0 where
  pub host : Bytes
  pub ctrl_port : ℕ
  pub user : Bytes
  pub password : Bytes
  pub output_dir : Bytes
  pub file_prefix : Bytes
  pub rotate_bytes : ℕ
  pub rotate_interval_seconds : ℤ
  pub log_dir : Bytes
  pub log_level : Bytes
  pub log_max_size : ℕ
  pub log_max_files : ℤ
  pub receiver : ReceiverSettings D

abbrev on_change : ℕ → List Bytes → SbfStream
on_change stream_id blocks = record {
  stream_id = pos stream_id;
  blocks = blocks;
  interval = text "OnChange";
}

abbrev pub default_streams : List SbfStream
default_streams =
    on_change 1 (text "ExtSensorMeas" ∷ [])
    ∷ on_change 2 (text "MeasEpoch" ∷ text "MeasExtra" ∷ text "EndOfMeas" ∷ [])
    ∷ on_change 3
        (text "AuxAntPositions" ∷ text "AttEuler" ∷ text "AttCovEuler" ∷ text "EndOfAtt" ∷ [])
    ∷ on_change 4 (text "ExtSensorStatus" ∷ text "ExtSensorInfo" ∷ text "IMUSetup" ∷ [])
    ∷ on_change 5 (
        text "ReceiverStatus" ∷ text "QualityInd" ∷ text "ReceiverTime" ∷ text "ChannelStatus" ∷ [])
    ∷ on_change 6 (
        text "GPS"
        ∷ text "GLO"
        ∷ text "GAL"
        ∷ text "BDS"
        ∷ text "QZS"
        ∷ text "RawNavBits"
        ∷ text "ReceiverSetup"
        ∷ text "Commands"
        ∷ text "DiffCorr"
        ∷ [])
    ∷ []

module _ {D : Type 0} (num : Numbers D) where
  -- `ReceiverSettings{}`, whose floating-point members are 0.0.
  abbrev pub default_settings : ReceiverSettings D
  default_settings = record {
    user = text "admin";
    password = text "admin";
    ips_id = pos 1;
    ips_port = 28785;
    streams = default_streams;
    use_sensor_default = true;
    imu_startup_data_mode = text "Boot";
    imu_orientation_mode = text "SensorDefault";
    theta_x_deg = num.zero;
    theta_y_deg = num.zero;
    theta_z_deg = num.zero;
    ant_lever_arm_m = record { x = num.zero; y = num.zero; z = num.zero };
    ant_lever_arm_configured = false;
    require_aux1 = true;
    gnss_attitude_mode = text "MultiAntenna";
    attitude_offset_deg = record { heading_deg = num.zero; pitch_deg = num.zero };
    configure_all_tracking = true;
    cn0_mask_dbhz = pos 0;
  }

  -- `AppConfig{}`.
  abbrev pub default_config : AppConfig D
  default_config = record {
    host = text "192.168.3.1";
    ctrl_port = 28784;
    user = text "admin";
    password = text "admin";
    output_dir = text "./recordings";
    file_prefix = text "asterx";
    rotate_bytes = 2 ^ 30;
    rotate_interval_seconds = pos 3600;
    log_dir = text "./logs";
    log_level = text "info";
    log_max_size = 100 * 1024 * 1024;
    log_max_files = pos 5;
    receiver = default_settings;
  }

abbrev checked : {D : Type 0} → AppConfig D → Result (Unit {0}) → Loaded (AppConfig D)
checked c (ok u) = loaded c
checked c (error e) = failed (config e)

abbrev opened {ℓ} : {N : Type ℓ} → Option N → Loaded N
opened none = failed no_file
opened (some root) = loaded root

module _ {N D : Type 0} (yaml : Yaml N D) (num : Numbers D) where
  unfoldable pub parse_connection : N → AppConfig D → Loaded (AppConfig D)
  parse_connection n c = do
    host ← field yaml n (text "host") (as_string yaml) c.host
    ctrl_port ← field yaml n (text "port") (λ m. read_port yaml n (text "port")) c.ctrl_port
    user ← field yaml n (text "user") (as_string yaml) c.user
    password ← field yaml n (text "password") (as_string yaml) c.password
    loaded (record c { host = host; ctrl_port = ctrl_port; user = user; password = password })

  unfoldable pub parse_output : N → AppConfig D → Loaded (AppConfig D)
  parse_output n c = do
    dir ← field yaml n (text "dir") (as_string yaml) c.output_dir
    file_prefix ← field yaml n (text "file_prefix") (as_string yaml) c.file_prefix
    rotate_bytes ← field yaml n (text "rotate_bytes") (as_uint64 yaml) c.rotate_bytes
    seconds ← field yaml n (text "rotate_interval_s") (as_int yaml) c.rotate_interval_seconds
    loaded (record c {
      output_dir = dir;
      file_prefix = file_prefix;
      rotate_bytes = rotate_bytes;
      rotate_interval_seconds = seconds;
    })

  unfoldable pub parse_log : N → AppConfig D → Loaded (AppConfig D)
  parse_log n c = do
    dir ← field yaml n (text "dir") (as_string yaml) c.log_dir
    level ← field yaml n (text "level") (as_string yaml) c.log_level
    max_size ← field yaml n (text "max_size") (as_uint64 yaml) c.log_max_size
    max_files ← field yaml n (text "max_files") (as_int yaml) c.log_max_files
    loaded (record c {
      log_dir = dir;
      log_level = level;
      log_max_size = max_size;
      log_max_files = max_files;
    })

  abbrev parse_settings : N → AppConfig D → Loaded (AppConfig D)
  parse_settings n c = do
    receiver ← parse_receiver yaml n c.receiver
    loaded (record c { receiver = receiver })

  -- The user's name and password are the receiver's, and the settings are validated.
  unfoldable pub finish : AppConfig D → Loaded (AppConfig D)
  finish c =
      let c' : AppConfig D = record c {
        receiver = record c.receiver { user = c.user; password = c.password };
      } in
      checked c' (validate_receiver_settings num c'.receiver)

  unfoldable pub load_app_config : Bytes → Loaded (AppConfig D)
  load_app_config path = do
    root ← opened (yaml.load_file path)
    c1 ← section_of yaml root (text "connection") parse_connection (default_config num)
    c2 ← section_of yaml root (text "output") parse_output c1
    c3 ← section_of yaml root (text "log") parse_log c2
    c4 ← section_of yaml root (text "receiver") parse_settings c3
    finish c4
