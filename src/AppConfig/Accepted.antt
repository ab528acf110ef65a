-- ===== src/AppConfig/Accepted.antt =====
-- src/app_config.cpp: what a configuration that was accepted satisfies.
use asterx_driver.Base.{
  ℕ, ◌≤◌, leb, ◌&&◌, leb→le, &&_iff, Bytes, text, text_eq, ◌≡◌, refl, arith, choice,
}
use asterx_driver.Receiver.Settings.{Numbers, ReceiverSettings, ℤ, pos, negsuc, Result, ok, error}
use asterx_driver.Receiver.Commands.{lower_copy, validate_receiver_settings}
use asterx_driver.Receiver.Valid.{ValidSettings, validate_receiver_settings_iff}
use asterx_driver.AppConfig.Document.{
  Yaml, Loaded, loaded, failed, ◌>>=◌, node, field, section_of, read_port, port_of, as_int,
  as_double, as_uint64, as_string, as_bool, read_attitude_offset,
}
use asterx_driver.AppConfig.Sections.{
  parse_receiver, parse_orientation, parse_imu, parse_attitude, parse_tracking, parse_streams,
  set_flag,
}
use asterx_driver.AppConfig.{
  AppConfig, default_config, parse_connection, parse_output, parse_log, parse_settings, finish,
  checked, opened, load_app_config,
}

-- Whatever is loaded satisfies `P`.
pub Loads {ℓ} : {A : Type ℓ} → (A → Type 0) → Loaded A → Type 0
Loads P (loaded a) = P a
Loads P (failed e) = Unit

>>=-Loads :
    {A B : Type 0} (P : A → Type 0) (Q : B → Type 0) (m : Loaded A) (k : A → Loaded B)
    → Loads P m
    → ((a : A) → P a → Loads Q (k a))
    → Loads Q (m >>= k)
unfolding Loads
>>=-Loads P Q (loaded a) k h hk = hk a h
>>=-Loads P Q (failed e) k h hk = tt

loaded-Loads : {A : Type 0} (P : A → Type 0) {a : A} → P a → Loads P (loaded a)
unfolding Loads
loaded-Loads P p = p

any-Loads : {A : Type 0} (m : Loaded A) → Loads (λ _. Unit) m
unfolding Loads
any-Loads (loaded a) = tt
any-Loads (failed e) = tt

abbrev IsPort : ℕ → Type 0
IsPort n = (1 ≤ n) × (n ≤ 65535)

port_of-Loads : (value : ℤ) → Loads IsPort (port_of value)
unfolding Loads
port_of-Loads (pos n) =
    choice (Loads IsPort) (leb 1 n && leb n 65535) _ _
      (λ h.
        let both = (&&_iff (leb 1 n) (leb n 65535)).0 h in
        (leb→le 1 n (both.0), leb→le n 65535 (both.1)))
      (λ _. tt)
port_of-Loads (negsuc n) = tt

module _ {N D : Type 0} (yaml : Yaml N D) (num : Numbers D) where
  field-Loads :
      {A : Type 0} (P : A → Type 0) (n : N) (key : Bytes) (read : N → Loaded A) (old : A)
      → P old
      → ((m : N) → Loads P (read m))
      → Loads P (field yaml n key read old)
  unfolding field
  field-Loads P n key read old h hr =
      >>=-Loads (λ _. Unit) P (node yaml n key) _ (any-Loads (node yaml n key))
        λ m _. choice (Loads P) (yaml.defined m) _ _ (λ _. hr m) (λ _. loaded-Loads P h)

  -- A section of the document, and what follows it.
  section-Loads :
      {A B : Type 0} (P : A → Type 0) (Q : B → Type 0) (n : N) (key : Bytes)
      (parse : N → A → Loaded A) (old : A) (k : A → Loaded B)
      → P old
      → ((m : N) (a : A) → P a → Loads P (parse m a))
      → ((a : A) → P a → Loads Q (k a))
      → Loads Q (section_of yaml n key parse old >>= k)
  section-Loads P Q n key parse old k p hp hk =
      >>=-Loads P Q (section_of yaml n key parse old) k
        (field-Loads P n key (λ m. parse m old) old p (λ m. hp m old p)) hk

  read_port-Loads : (n : N) (key : Bytes) → Loads IsPort (read_port yaml n key)
  unfolding read_port
  read_port-Loads n key =
      >>=-Loads (λ _. Unit) IsPort (node yaml n key) _ (any-Loads (node yaml n key))
        λ m _.
          >>=-Loads (λ _. Unit) IsPort (as_int yaml m) _ (any-Loads (as_int yaml m))
            λ value _. port_of-Loads value

  -- A value that does not matter to `P`.
  then-Loads :
      {A B : Type 0} (P : B → Type 0) (m : Loaded A) (k : A → Loaded B)
      → ((a : A) → Loads P (k a))
      → Loads P (m >>= k)
  then-Loads P m k h = >>=-Loads (λ _. Unit) P m k (any-Loads m) λ a _. h a

  abbrev PortFits : ReceiverSettings D → Type 0
  PortFits r = IsPort r.ips_port

  parse_orientation-Loads :
      (im : N) (r : ReceiverSettings D) → PortFits r → Loads PortFits (parse_orientation yaml im r)
  unfolding parse_orientation
  parse_orientation-Loads im r p =
      then-Loads PortFits (node yaml im (text "orientation_mode")) _ λ m.
        choice (Loads PortFits) (yaml.defined m) _ _
          (λ _. then-Loads PortFits _ _ λ mode. loaded-Loads PortFits p)
          (λ _.
            field-Loads PortFits im (text "use_sensor_default") _ r p
              λ m'. then-Loads PortFits _ _ λ flag. loaded-Loads PortFits p)

  parse_imu-Loads :
      (im : N) (r : ReceiverSettings D) → PortFits r → Loads PortFits (parse_imu yaml im r)
  unfolding parse_imu
  parse_imu-Loads im r p = then-Loads PortFits _ _ λ startup.
      >>=-Loads PortFits PortFits _ _ (parse_orientation-Loads im _ p) λ r' p'.
        then-Loads PortFits (field yaml im (text "theta_x_deg") (as_double yaml) r'.theta_x_deg) _
          λ x.
            then-Loads PortFits (field yaml im (text "theta_y_deg") (as_double yaml) r'.theta_y_deg)
              _
              λ y.
                then-Loads PortFits
                  (field yaml im (text "theta_z_deg") (as_double yaml) r'.theta_z_deg) _
                  λ z.
                    field-Loads PortFits im (text "ant_lever_arm_m") _ _ p'
                      λ m. then-Loads PortFits _ _ λ arm. loaded-Loads PortFits p'

  parse_attitude-Loads :
      (att : N) (r : ReceiverSettings D) → PortFits r → Loads PortFits (parse_attitude yaml att r)
  unfolding parse_attitude
  parse_attitude-Loads att r p =
      then-Loads PortFits (field yaml att (text "mode") (as_string yaml) r.gnss_attitude_mode) _
        λ mode.
          then-Loads PortFits
            (field yaml att (text "attitude_offset_deg") (read_attitude_offset yaml)
              r.attitude_offset_deg)
            _ λ offset. loaded-Loads PortFits p

  parse_tracking-Loads :
      (tr : N) (r : ReceiverSettings D) → PortFits r → Loads PortFits (parse_tracking yaml tr r)
  unfolding parse_tracking
  parse_tracking-Loads tr r p =
      then-Loads PortFits
        (field yaml tr (text "enable_all") (as_bool yaml) r.configure_all_tracking) _
        λ all.
          then-Loads PortFits (field yaml tr (text "cn0_mask_dbhz") (as_int yaml) r.cn0_mask_dbhz) _
            λ mask. loaded-Loads PortFits p

  parse_streams-Loads :
      (m : N) (r : ReceiverSettings D) → PortFits r → Loads PortFits (parse_streams yaml m r)
  unfolding parse_streams
  parse_streams-Loads m r p =
      choice (Loads PortFits) (yaml.is_sequence m) _ _
        (λ _. then-Loads PortFits _ _ λ ss. loaded-Loads PortFits p) (λ _. loaded-Loads PortFits p)

  -- The port in range, and the flag that says what the mode is.
  abbrev pub FlagFits : ReceiverSettings D → Type 0
  FlagFits r =
      r.use_sensor_default ≡ text_eq (lower_copy r.imu_orientation_mode) (text "sensordefault")

  abbrev SettingsFit : ReceiverSettings D → Type 0
  SettingsFit r = PortFits r × FlagFits r

  parse_receiver-Loads :
      (n : N) (r : ReceiverSettings D) → PortFits r → Loads SettingsFit (parse_receiver yaml n r)
  unfolding parse_receiver
  parse_receiver-Loads n r p =
      then-Loads SettingsFit (field yaml n (text "ips_id") (as_int yaml) r.ips_id) _ λ ips_id.
        >>=-Loads IsPort SettingsFit
          (field yaml n (text "ips_port") (λ m. read_port yaml n (text "ips_port")) r.ips_port) _
          (field-Loads IsPort n (text "ips_port") _ r.ips_port p
            λ m. read_port-Loads n (text "ips_port"))
          λ ips_port p1.
            then-Loads SettingsFit
              (field yaml n (text "require_aux1") (as_bool yaml) r.require_aux1) _
              λ aux1.
                let r0 : ReceiverSettings D = record r {
                  ips_id = ips_id;
                  ips_port = ips_port;
                  require_aux1 = aux1;
                } in
                section-Loads PortFits SettingsFit n (text "imu") (parse_imu yaml) r0 _ p1
                  parse_imu-Loads
                  λ r1 p2.
                    section-Loads PortFits SettingsFit n (text "gnss_attitude")
                      (parse_attitude yaml) r1 _ p2 parse_attitude-Loads
                      λ r2 p3.
                        section-Loads PortFits SettingsFit n (text "tracking") (parse_tracking yaml)
                          r2 _ p3 parse_tracking-Loads
                          λ r3 p4.
                            section-Loads PortFits SettingsFit n (text "streams")
                              (parse_streams yaml) r3 _ p4 parse_streams-Loads
                              λ r4 p5. loaded-Loads SettingsFit {a = set_flag yaml r4} (p5, refl)

  abbrev Fits : AppConfig D → Type 0
  Fits c = IsPort c.ctrl_port × SettingsFit c.receiver

  parse_connection-Loads :
      (n : N) (c : AppConfig D) → Fits c → Loads Fits (parse_connection yaml num n c)
  unfolding parse_connection
  parse_connection-Loads n c f =
      then-Loads Fits (field yaml n (text "host") (as_string yaml) c.host) _ λ host.
        >>=-Loads IsPort Fits
          (field yaml n (text "port") (λ m. read_port yaml n (text "port")) c.ctrl_port) _
          (field-Loads IsPort n (text "port") _ c.ctrl_port (f.0)
            λ m. read_port-Loads n (text "port"))
          λ port p. then-Loads Fits (field yaml n (text "user") (as_string yaml) c.user) _ λ user.
            then-Loads Fits (field yaml n (text "password") (as_string yaml) c.password) _
              λ password.
                loaded-Loads Fits
                  {a = record c { host = host; ctrl_port = port; user = user; password = password }}
                  (p, f.1)

  parse_output-Loads : (n : N) (c : AppConfig D) → Fits c → Loads Fits (parse_output yaml num n c)
  unfolding parse_output
  parse_output-Loads n c f =
      then-Loads Fits (field yaml n (text "dir") (as_string yaml) c.output_dir) _ λ dir.
        then-Loads Fits (field yaml n (text "file_prefix") (as_string yaml) c.file_prefix) _
          λ prefix.
            then-Loads Fits (field yaml n (text "rotate_bytes") (as_uint64 yaml) c.rotate_bytes) _
              λ bytes.
                then-Loads Fits
                  (field yaml n (text "rotate_interval_s") (as_int yaml) c.rotate_interval_seconds)
                  _
                  λ seconds.
                    loaded-Loads Fits
                      {a = record c {
                        output_dir = dir;
                        file_prefix = prefix;
                        rotate_bytes = bytes;
                        rotate_interval_seconds = seconds;
                      }}
                      f

  parse_log-Loads : (n : N) (c : AppConfig D) → Fits c → Loads Fits (parse_log yaml num n c)
  unfolding parse_log
  parse_log-Loads n c f =
      then-Loads Fits (field yaml n (text "dir") (as_string yaml) c.log_dir) _ λ dir.
        then-Loads Fits (field yaml n (text "level") (as_string yaml) c.log_level) _ λ level.
          then-Loads Fits (field yaml n (text "max_size") (as_uint64 yaml) c.log_max_size) _ λ size.
            then-Loads Fits (field yaml n (text "max_files") (as_int yaml) c.log_max_files) _
              λ files.
                loaded-Loads Fits
                  {a = record c {
                    log_dir = dir;
                    log_level = level;
                    log_max_size = size;
                    log_max_files = files;
                  }}
                  f

  parse_settings-Loads :
      (n : N) (c : AppConfig D) → Fits c → Loads Fits (parse_settings yaml num n c)
  parse_settings-Loads n c f =
      >>=-Loads SettingsFit Fits (parse_receiver yaml n c.receiver) _
        (parse_receiver-Loads n c.receiver (f.1.0))
        λ receiver p. loaded-Loads Fits {a = record c { receiver = receiver }} (f.0, p)

  -- The ports are in 1..65535, the settings are valid, the flag says what the mode is, and the
  -- receiver's login is that of the connection.
  abbrev pub Accepted : AppConfig D → Type 0
  Accepted c =
      Fits c
      × ValidSettings num c.receiver
      × (c.receiver.user ≡ c.user)
      × (c.receiver.password ≡ c.password)

  checked-Loads :
      (c : AppConfig D) (r : Result (Unit {0}))
      → (r ≡ ok tt → Accepted c)
      → Loads Accepted (checked c r)
  unfolding Loads
  checked-Loads c (ok u) h = h refl
  checked-Loads c (error e) h = tt

  finish-Loads : (c : AppConfig D) → Fits c → Loads Accepted (finish yaml num c)
  unfolding finish Loads
  finish-Loads c f =
      let c' : AppConfig D = record c {
        receiver = record c.receiver { user = c.user; password = c.password };
      } in
      checked-Loads c' (validate_receiver_settings num c'.receiver)
        λ e. (f, (validate_receiver_settings_iff num c'.receiver).0 e, refl, refl)

  -- Whatever document is loaded without an error gives a configuration whose ports are in 1..65535
  -- and whose receiver settings are valid, with the flag `use_sensor_default` for the orientation mode
  -- and with the connection's login.
  pub load_app_config-Loads : (path : Bytes) → Loads Accepted (load_app_config yaml num path)
  unfolding load_app_config
  load_app_config-Loads path = then-Loads Accepted (opened (yaml.load_file path)) _ λ root.
      section-Loads Fits Accepted root (text "connection") (parse_connection yaml num)
        (default_config num) _ (omega arith, (omega arith, refl)) parse_connection-Loads
        λ c1 f1.
          section-Loads Fits Accepted root (text "output") (parse_output yaml num) c1 _ f1
            parse_output-Loads
            λ c2 f2.
              section-Loads Fits Accepted root (text "log") (parse_log yaml num) c2 _ f2
                parse_log-Loads
                λ c3 f3.
                  section-Loads Fits Accepted root (text "receiver") (parse_settings yaml num) c3 _
                    f3 parse_settings-Loads λ c4 f4. finish-Loads c4 f4
