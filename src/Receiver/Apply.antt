-- ===== src/Receiver/Apply.antt =====
-- src/receiver_config.cpp: what `apply` and `stop_streams` send.
use asterx_driver.Base.{
  ℕ, Bool, true, false, not, ◌&&◌, List, [], ◌∷◌, ◌++◌, Bytes, text, ◌≡◌, refl, sym, ◌≢◌,
  if◌then◌else◌, if_false,
}
use mathlib.Core.Path.{subst}
use asterx_driver.Receiver.Settings.{
  Numbers, ReceiverSettings, SbfStream, ℤ, require, no_aux1, int_to_string,
}
use asterx_driver.Receiver.Commands.{
  sbf_output_text, set_orientation_command, build_sbf_output_command, is_empty,
  build_ins_ant_lever_arm_command, fmt_command_decimal, validate_receiver_settings,
}
use asterx_driver.Receiver.Replies.{
  parse_receiver_capabilities_reply, verify_imu_orientation_reply, verify_ins_ant_lever_arm_reply,
  verify_gnss_attitude_reply, verify_attitude_offset_reply,
}
use asterx_driver.Receiver.Link.{Link, InStep, Wire, M, ◌>>=◌, ◌>>◌, done}
use asterx_driver.Receiver.Session.{
  ip_server_command, data_in_out_command, send, send_streams, check_capabilities, reset_tracking,
  configure_imu, configure_attitude, apply,
}
use asterx_driver.Receiver.Script.{
  clear_script, SendsFrom, Sends, >>=-Sends, done-Sends, check-Sends, check-Sends_last,
}
use asterx_driver.Receiver.Sending.{send-Sends, then-Sends, then_send-Sends, clear_streams-Sends}
use asterx_driver.Receiver.Valid.{
  ValidStreams, ValidSettings, build_sbf_output_command_iff, validate_receiver_settings_iff,
}

-- One command for each stream.
abbrev pub stream_script : List SbfStream → ℤ → List Bytes
stream_script [] ips_id = []
stream_script (s ∷ streams) ips_id = sbf_output_text s ips_id ∷ stream_script streams ips_id

abbrev pub tracking_script : {D : Type 0} → ReceiverSettings D → List Bytes
tracking_script settings =
    if settings.configure_all_tracking
    then text "setSatelliteTracking, all"
      ∷ text "setSignalTracking, all"
      ∷ text "setSignalUsage, all, all"
      ∷ (text "setCN0Mask, all, " ++ int_to_string settings.cn0_mask_dbhz)
      ∷ []
    else []

module _ {D : Type 0} (num : Numbers D) where
  abbrev pub imu_script : ReceiverSettings D → List Bytes
  imu_script settings =
      (text "setIMUStartupDataMode, " ++ settings.imu_startup_data_mode)
      ∷ set_orientation_command num settings
      ∷ text "getIMUOrientation"
      ∷ build_ins_ant_lever_arm_command num settings.ant_lever_arm_m
      ∷ text "getINSAntLeverArm"
      ∷ []

  abbrev pub attitude_script : ReceiverSettings D → List Bytes
  attitude_script settings =
      (text "setGNSSAttitude, " ++ settings.gnss_attitude_mode)
      ∷ text "getGNSSAttitude"
      ∷ (text "setAttitudeOffset, "
          ++ fmt_command_decimal num settings.attitude_offset_deg.heading_deg
          ++ text ", "
          ++ fmt_command_decimal num settings.attitude_offset_deg.pitch_deg)
      ∷ text "getAttitudeOffset"
      ∷ []

  -- The commands that configure a receiver, in order.
  abbrev pub script : ReceiverSettings D → List Bytes
  script settings =
      text "getReceiverCapabilities"
      ∷ (clear_script 10 1
          ++ (ip_server_command settings
              ∷ data_in_out_command settings
              ∷ (tracking_script settings
                  ++ (imu_script settings
                      ++ (attitude_script settings
                          ++ stream_script settings.streams settings.ips_id)))))

nonempty_false : {A : Type 0} (xs : List A) → xs ≢ [] → is_empty xs ≡ false
nonempty_false [] h = absurd (h refl)
nonempty_false (x ∷ xs) h = refl

module _ {S : Type 0} (link : Link S) (base : Bytes) (timeout : ℕ) where
  nonempty-Sends :
      {A : Type 0} {b : Bool} (m k : M S A) (cs : List Bytes)
      → b ≡ false
      → Sends link base k cs
      → Sends link base (if b then m else k) cs
  nonempty-Sends m k cs e h = subst (λ x. Sends link base x cs) (sym (if_false m k e)) h

  send_streams-Sends :
      (streams : List SbfStream) (ips_id : ℤ)
      → ValidStreams streams ips_id
      → Sends link base (send_streams link timeout streams ips_id) (stream_script streams ips_id)
  unfolding send_streams
  send_streams-Sends [] ips_id v = done-Sends link base
  send_streams-Sends (s ∷ streams) ips_id v =
      nonempty-Sends _ _ _ (nonempty_false s.blocks (v.0.1.1.0)) (
        check-Sends link base (build_sbf_output_command s ips_id) _ _ λ cmd built.
          subst
            (λ c.
              Sends link base
                (send link timeout cmd >>= λ _. send_streams link timeout streams ips_id)
                (c ∷ stream_script streams ips_id))
            (((build_sbf_output_command_iff s ips_id cmd).0 built).1)
            (then_send-Sends link base timeout cmd _ _ (send_streams-Sends streams ips_id (v.1))))

  module _ {D : Type 0} (num : Numbers D) where
    check_capabilities-Sends :
        (settings : ReceiverSettings D)
        → Sends link base
            (check_capabilities link timeout num settings)
            (text "getReceiverCapabilities" ∷ [])
    unfolding check_capabilities
    check_capabilities-Sends settings = then-Sends link base timeout _ [] _ λ reply.
        check-Sends link base (parse_receiver_capabilities_reply num reply) _ [] λ caps e.
          check-Sends_last link base
            (require (not (settings.require_aux1 && not caps.has_aux1)) no_aux1)

    tracking-Sends :
        (b : Bool) (c₁ c₂ c₃ c₄ : Bytes)
        → Sends link base
            (if b
              then (do
                send link timeout c₁
                send link timeout c₂
                send link timeout c₃
                send link timeout c₄)
              else done)
            (if b then c₁ ∷ c₂ ∷ c₃ ∷ c₄ ∷ [] else [])
    tracking-Sends true c₁ c₂ c₃ c₄ = then_send-Sends link base timeout _ _ _ (
        then_send-Sends link base timeout _ _ _
          (then_send-Sends link base timeout _ _ _ (send-Sends link base timeout c₄)))
    tracking-Sends false c₁ c₂ c₃ c₄ = done-Sends link base

    reset_tracking-Sends :
        (settings : ReceiverSettings D)
        → Sends link base (reset_tracking link timeout num settings) (tracking_script settings)
    unfolding reset_tracking
    reset_tracking-Sends settings = tracking-Sends settings.configure_all_tracking _ _ _ _

    configure_imu-Sends :
        (settings : ReceiverSettings D)
        → Sends link base (configure_imu link timeout num settings) (imu_script num settings)
    unfolding configure_imu
    configure_imu-Sends settings = then_send-Sends link base timeout _ _ _ (
        then_send-Sends link base timeout _ _ _ (
          then-Sends link base timeout _ _ _ λ orientation.
            check-Sends link base (verify_imu_orientation_reply num orientation settings) _ _ λ _ e.
              then_send-Sends link base timeout _ _ _ (
                then-Sends link base timeout _ [] _ λ lever_arm.
                  check-Sends_last link base
                    (verify_ins_ant_lever_arm_reply num lever_arm settings.ant_lever_arm_m))))

    configure_attitude-Sends :
        (settings : ReceiverSettings D)
        → Sends link base
            (configure_attitude link timeout num settings)
            (attitude_script num settings)
    unfolding configure_attitude
    configure_attitude-Sends settings = then_send-Sends link base timeout _ _ _ (
        then-Sends link base timeout _ _ _ λ mode.
          check-Sends link base (verify_gnss_attitude_reply mode settings.gnss_attitude_mode) _ _
            λ _ e. then_send-Sends link base timeout _ _ _ (
              then-Sends link base timeout _ [] _ λ offset.
                check-Sends_last link base
                  (verify_attitude_offset_reply num offset settings.attitude_offset_deg)))

    valid_streams :
        (settings : ReceiverSettings D)
        → ValidSettings num settings
        → ValidStreams settings.streams settings.ips_id
    valid_streams settings v = v.1.1.1.1.1.1.1.1

    apply-Sends :
        (settings : ReceiverSettings D)
        → Sends link base (apply link timeout num settings) (script num settings)
    unfolding apply
    apply-Sends settings =
        check-Sends link base (validate_receiver_settings num settings) _ _ λ _ valid.
          >>=-Sends link base _ _ _ _ (check_capabilities-Sends settings) λ _.
            >>=-Sends link base _ _ _ _ (clear_streams-Sends link base timeout 10 1) λ _.
              then_send-Sends link base timeout _ _ _ (
                then_send-Sends link base timeout _ _ _ (
                  >>=-Sends link base _ _ _ _ (reset_tracking-Sends settings) λ _.
                    >>=-Sends link base _ _ _ _ (configure_imu-Sends settings) λ _.
                      >>=-Sends link base _ _ _ _ (configure_attitude-Sends settings) λ _.
                        send_streams-Sends _ _ (
                          valid_streams settings
                            ((validate_receiver_settings_iff num settings).0 valid))))

    -- Whatever the connection and the receiver do, `apply` hands the commands of the script over in
    -- order, each once: all of them if it returns, the first of them if it throws. If before it the
    -- connection has put out `base` and the texts handed over, then after it too, unless the
    -- connection failed: then a first part of them.
    pub apply-SendsFrom :
        (settings : ReceiverSettings D) (w : Wire S)
        → InStep link base w
        → SendsFrom link base w (script num settings) (apply link timeout num settings w)
    unfolding Sends
    apply-SendsFrom settings = apply-Sends settings
