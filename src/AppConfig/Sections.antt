-- ===== src/AppConfig/Sections.antt =====
-- src/app_config.cpp: `parse_receiver`, section by section.
use asterx_driver.Base.{true, List, [], ◌∷◌, if◌then◌else◌, Bytes, text, text_eq}
use asterx_driver.Receiver.Settings.{ReceiverSettings, SbfStream}
use asterx_driver.Receiver.Commands.{lower_copy}
use asterx_driver.AppConfig.Document.{
  Yaml, Loaded, loaded, ◌>>=◌, node, field, section_of, as_int, as_double, as_bool, as_string,
  read_port, read_vec3, read_attitude_offset,
}

module _ {N D : Type 0} (yaml : Yaml N D) where
  abbrev mode_of_flag : N → ReceiverSettings D → Loaded (ReceiverSettings D)
  mode_of_flag m receiver = do
    use_sensor_default ← as_bool yaml m
    loaded (record receiver {
      use_sensor_default = use_sensor_default;
      imu_orientation_mode = if use_sensor_default then text "SensorDefault" else text "manual";
    })

  -- The orientation mode, or the older flag when the mode is not given.
  unfoldable pub parse_orientation : N → ReceiverSettings D → Loaded (ReceiverSettings D)
  parse_orientation im receiver = do
    m ← node yaml im (text "orientation_mode")
    if yaml.defined m
        then (do mode ← as_string yaml m; loaded (record receiver { imu_orientation_mode = mode }))
        else section_of yaml im (text "use_sensor_default") mode_of_flag receiver

  abbrev parse_lever_arm : N → ReceiverSettings D → Loaded (ReceiverSettings D)
  parse_lever_arm m receiver = do
    arm ← read_vec3 yaml m
    loaded (record receiver { ant_lever_arm_m = arm; ant_lever_arm_configured = true })

  unfoldable pub parse_imu : N → ReceiverSettings D → Loaded (ReceiverSettings D)
  parse_imu im receiver = do
    startup ←
        field yaml im (text "startup_data_mode") (as_string yaml) receiver.imu_startup_data_mode
    r ← parse_orientation im (record receiver { imu_startup_data_mode = startup })
    theta_x ← field yaml im (text "theta_x_deg") (as_double yaml) r.theta_x_deg
    theta_y ← field yaml im (text "theta_y_deg") (as_double yaml) r.theta_y_deg
    theta_z ← field yaml im (text "theta_z_deg") (as_double yaml) r.theta_z_deg
    section_of yaml im (text "ant_lever_arm_m") parse_lever_arm
        (record r { theta_x_deg = theta_x; theta_y_deg = theta_y; theta_z_deg = theta_z })

  unfoldable pub parse_attitude : N → ReceiverSettings D → Loaded (ReceiverSettings D)
  parse_attitude att receiver = do
    mode ← field yaml att (text "mode") (as_string yaml) receiver.gnss_attitude_mode
    offset ←
        field yaml att (text "attitude_offset_deg") (read_attitude_offset yaml)
          receiver.attitude_offset_deg
    loaded (record receiver { gnss_attitude_mode = mode; attitude_offset_deg = offset })

  unfoldable pub parse_tracking : N → ReceiverSettings D → Loaded (ReceiverSettings D)
  parse_tracking tr receiver = do
    enable_all ← field yaml tr (text "enable_all") (as_bool yaml) receiver.configure_all_tracking
    mask ← field yaml tr (text "cn0_mask_dbhz") (as_int yaml) receiver.cn0_mask_dbhz
    loaded (record receiver { configure_all_tracking = enable_all; cn0_mask_dbhz = mask })

  abbrev read_blocks : List N → Loaded (List Bytes)
  read_blocks [] = loaded []
  read_blocks (b ∷ bs) = do
    block ← as_string yaml b
    blocks ← read_blocks bs
    loaded (block ∷ blocks)

  unfoldable pub read_stream : N → Loaded SbfStream
  read_stream s = do
    id ← node yaml s (text "id")
    stream_id ← as_int yaml id
    i ← node yaml s (text "interval")
    interval ← as_string yaml i
    bs ← node yaml s (text "blocks")
    blocks ← read_blocks (yaml.items bs)
    loaded (record { stream_id = stream_id; blocks = blocks; interval = interval })

  abbrev read_streams : List N → Loaded (List SbfStream)
  read_streams [] = loaded []
  read_streams (s ∷ ss) = do
    stream ← read_stream s
    streams ← read_streams ss
    loaded (stream ∷ streams)

  -- A node that is no sequence leaves the streams as they are.
  unfoldable pub parse_streams : N → ReceiverSettings D → Loaded (ReceiverSettings D)
  parse_streams m receiver =
      if yaml.is_sequence m
      then (do
        streams ← read_streams (yaml.items m)
        loaded (record receiver { streams = streams }))
      else loaded receiver

  abbrev pub set_flag : ReceiverSettings D → ReceiverSettings D
  set_flag receiver = record receiver {
    use_sensor_default = text_eq (lower_copy receiver.imu_orientation_mode) (text "sensordefault");
  }

  unfoldable pub parse_receiver : N → ReceiverSettings D → Loaded (ReceiverSettings D)
  parse_receiver n receiver = do
    ips_id ← field yaml n (text "ips_id") (as_int yaml) receiver.ips_id
    ips_port ←
        field yaml n (text "ips_port") (λ m. read_port yaml n (text "ips_port")) receiver.ips_port
    aux1 ← field yaml n (text "require_aux1") (as_bool yaml) receiver.require_aux1
    r1 ←
        section_of yaml n (text "imu") parse_imu
          (record receiver { ips_id = ips_id; ips_port = ips_port; require_aux1 = aux1 })
    r2 ← section_of yaml n (text "gnss_attitude") parse_attitude r1
    r3 ← section_of yaml n (text "tracking") parse_tracking r2
    r4 ← section_of yaml n (text "streams") parse_streams r3
    loaded (set_flag r4)
