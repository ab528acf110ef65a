-- ===== src/Receiver/Session.antt =====
-- src/receiver_config.cpp: `ReceiverConfigurator`.
use asterx_driver.Base.{
  ℕ, zero, suc, ◌+◌, not, ◌&&◌, ◌||◌, List, [], ◌∷◌, ◌++◌, if◌then◌else◌, Bytes, text, contains,
  to_string,
}
use asterx_driver.Receiver.Settings.{
  Numbers, ReceiverSettings, SbfStream, ℤ, int_to_string, Result, ok, error, rejected, refused,
  no_aux1, require,
}
use asterx_driver.Receiver.Commands.{
  is_empty, build_sbf_output_command, validate_receiver_settings, set_orientation_command,
  build_ins_ant_lever_arm_command, fmt_command_decimal,
}
use asterx_driver.Receiver.Replies.{
  parse_receiver_capabilities_reply, verify_imu_orientation_reply, verify_ins_ant_lever_arm_reply,
  verify_gnss_attitude_reply, verify_attitude_offset_reply,
}
use asterx_driver.Receiver.Link.{
  Link, M, ◌>>=◌, ◌>>◌, done, check, handle_config, handle_all, write_text, read_reply,
}

abbrev pub line : Bytes → Bytes
line cmd = cmd ++ text "\r\n"

abbrev pub clear_command : ℕ → Bytes
clear_command stream_id =
    text "setSBFOutput, Stream" ++ to_string stream_id ++ text ", none, none, off"

abbrev pub login_command : Bytes → Bytes → Bytes
login_command user password = text "login, " ++ user ++ text ", " ++ password

abbrev pub ip_server_command : {D : Type 0} → ReceiverSettings D → Bytes
ip_server_command settings =
    text "setIPServerSettings, IPS"
    ++ int_to_string settings.ips_id
    ++ text ", "
    ++ to_string settings.ips_port
    ++ text ", TCP"

abbrev pub data_in_out_command : {D : Type 0} → ReceiverSettings D → Bytes
data_in_out_command settings =
    text "setDataInOut, IPS" ++ int_to_string settings.ips_id ++ text ", , +SBF"

-- The reply, unless it reports an error.
abbrev pub accepted : Bytes → Result Bytes
accepted reply =
    if contains (text "$R?") reply || contains (text "Invalid") reply
    then error rejected
    else ok reply

module _ {S : Type 0} (link : Link S) (timeout : ℕ) where
  unfoldable pub send_command : Bytes → M S Bytes
  send_command cmd = do
    write_text link (line cmd)
    reply ← read_reply link timeout
    check (accepted reply)

  unfoldable pub login : Bytes → Bytes → M S (Unit {0})
  login user password = do
    banner ← read_reply link timeout
    reply ← send_command (login_command user password)
    check (require (not (contains (text "$R?") reply)) refused)

  -- The value that a command returns is discarded.
  abbrev pub send : Bytes → M S (Unit {0})
  send cmd = do reply ← send_command cmd; done

  -- `left` streams to clear, from `stream_id` on.
  unfoldable pub clear_streams : ℕ → ℕ → M S (Unit {0})
  clear_streams zero stream_id = done
  clear_streams (suc left) stream_id = do
    λ w. handle_config (send_command (clear_command stream_id) w)
    clear_streams left (stream_id + 1)

  unfoldable pub send_streams : List SbfStream → ℤ → M S (Unit {0})
  send_streams [] ips_id = done
  send_streams (s ∷ streams) ips_id =
      let rest = send_streams streams ips_id in
      if is_empty s.blocks
      then rest
      else do cmd ← check (build_sbf_output_command s ips_id); send cmd; rest

  module _ {D : Type 0} (num : Numbers D) where
    -- The steps of `apply`, under their numbers in the source.
    unfoldable pub check_capabilities : ReceiverSettings D → M S (Unit {0})
    check_capabilities settings = do
      reply ← send_command (text "getReceiverCapabilities")
      caps ← check (parse_receiver_capabilities_reply num reply)
      check (require (not (settings.require_aux1 && not caps.has_aux1)) no_aux1)

    unfoldable pub reset_tracking : ReceiverSettings D → M S (Unit {0})
    reset_tracking settings =
        if settings.configure_all_tracking
        then (do
          send (text "setSatelliteTracking, all")
          send (text "setSignalTracking, all")
          send (text "setSignalUsage, all, all")
          send (text "setCN0Mask, all, " ++ int_to_string settings.cn0_mask_dbhz))
        else done

    unfoldable pub configure_imu : ReceiverSettings D → M S (Unit {0})
    configure_imu settings = do
      send (text "setIMUStartupDataMode, " ++ settings.imu_startup_data_mode)
      send (set_orientation_command num settings)
      orientation ← send_command (text "getIMUOrientation")
      check (verify_imu_orientation_reply num orientation settings)
      send (build_ins_ant_lever_arm_command num settings.ant_lever_arm_m)
      lever_arm ← send_command (text "getINSAntLeverArm")
      check (verify_ins_ant_lever_arm_reply num lever_arm settings.ant_lever_arm_m)

    unfoldable pub configure_attitude : ReceiverSettings D → M S (Unit {0})
    configure_attitude settings = do
      send (text "setGNSSAttitude, " ++ settings.gnss_attitude_mode)
      mode ← send_command (text "getGNSSAttitude")
      check (verify_gnss_attitude_reply mode settings.gnss_attitude_mode)
      send (
          text "setAttitudeOffset, "
          ++ fmt_command_decimal num settings.attitude_offset_deg.heading_deg
          ++ text ", "
          ++ fmt_command_decimal num settings.attitude_offset_deg.pitch_deg)
      offset ← send_command (text "getAttitudeOffset")
      check (verify_attitude_offset_reply num offset settings.attitude_offset_deg)

    unfoldable pub apply : ReceiverSettings D → M S (Unit {0})
    apply settings = do
      check (validate_receiver_settings num settings)
      check_capabilities settings
      clear_streams 10 1
      send (ip_server_command settings)
      send (data_in_out_command settings)
      reset_tracking settings
      configure_imu settings
      configure_attitude settings
      send_streams settings.streams settings.ips_id

module _ {S : Type 0} (link : Link S) where
  unfoldable pub stop_from : ℕ → ℕ → M S (Unit {0})
  stop_from zero stream_id = done
  stop_from (suc left) stream_id = do
    λ w. handle_all (send_command link 2000 (clear_command stream_id) w)
    stop_from left (stream_id + 1)

  unfoldable pub stop_streams : M S (Unit {0})
  stop_streams = stop_from 10 1
