-- ===== src/Receiver/Settings.antt =====
-- src/receiver_config.hpp: the settings, and the ways in which `ConfigError` is thrown.
-- The type `D` of floating-point numbers is a parameter.
use asterx_driver.Base.{ℕ, suc, Bool, true, false, ◌&&◌, List, ◌∷◌, Option, leb, Bytes, to_string}

-- An `int` that is given by the configuration.
pub data ℤ : Type 0 where
  pos : ℕ → ℤ
  negsuc : ℕ → ℤ

abbrev pub in_range : ℕ → ℕ → ℤ → Bool
in_range lo hi (pos n) = leb lo n && leb n hi
in_range lo hi (negsuc n) = false

-- `std::to_string(int)`.
abbrev pub int_to_string : ℤ → Bytes
int_to_string (pos n) = to_string n
int_to_string (negsuc n) = b'-' ∷ to_string (suc n)

-- Floating-point numbers, and what the streams read and print of numbers.
pub record Numbers (D : Type 0) : Type 0 where
  pub zero : D
  pub hundred : D
  pub minus_hundred : D
  pub milli : D
  pub half_milli : D
  pub lt : D → D → Bool
  pub le : D → D → Bool
  pub minus : D → D → D
  pub fabs : D → D
  -- `std::fixed << std::setprecision(3) << v`
  pub print_fixed3 : D → Bytes
  -- `is >> v`, on the whole text
  pub read_double : Bytes → Option D
  pub read_int : Bytes → Option ℤ

pub record Vec3 (D : Type 0) : Type 0 where
  pub x : D
  pub y : D
  pub z : D

pub record AttitudeOffset (D : Type 0) : Type 0 where
  pub heading_deg : D
  pub pitch_deg : D

pub record SbfStream : Type 0 where
  pub stream_id : ℤ
  pub blocks : List Bytes
  pub interval : Bytes

pub record ReceiverCapabilities : Type 0 where
  pub has_main : Bool
  pub has_aux1 : Bool
  pub measurement_interval_ms : ℤ
  pub pvt_interval_ms : ℤ
  pub ins_interval_ms : ℤ

pub record ReceiverSettings (D : Type 0) : Type 0 where
  pub user : Bytes
  pub password : Bytes
  pub ips_id : ℤ
  pub ips_port : ℕ
  pub streams : List SbfStream
  pub use_sensor_default : Bool
  pub imu_startup_data_mode : Bytes
  pub imu_orientation_mode : Bytes
  pub theta_x_deg : D
  pub theta_y_deg : D
  pub theta_z_deg : D
  pub ant_lever_arm_m : Vec3 D
  pub ant_lever_arm_configured : Bool
  pub require_aux1 : Bool
  pub gnss_attitude_mode : Bytes
  pub attitude_offset_deg : AttitudeOffset D
  pub configure_all_tracking : Bool
  pub cn0_mask_dbhz : ℤ

pub data ConfigError : Type 0 where
  bad_ips_id bad_startup_mode bad_orientation_mode no_lever_arm bad_lever_arm : ConfigError
  bad_attitude_mode bad_cn0_mask no_streams bad_stream_id no_blocks bad_interval : ConfigError
  too_long no_key too_few_fields bad_integer bad_number orientation_mismatch : ConfigError
  lever_arm_mismatch attitude_mismatch offset_mismatch rejected refused no_aux1 : ConfigError

-- A value, or a `ConfigError`.
pub data Result {ℓ} (A : Type ℓ) : Type ℓ where
  ok : A → Result A
  error : ConfigError → Result A

infixl 5 ◌>>=◌ ◌>>◌
abbrev pub ◌>>=◌ {ℓ κ} : {A : Type ℓ} {B : Type κ} → Result A → (A → Result B) → Result B
ok a >>= k = k a
error e >>= k = error e

abbrev pub ◌>>◌ {ℓ} : {B : Type ℓ} → Result (Unit {0}) → Result B → Result B
m >> k = m >>= λ _. k

-- `if (!test) throw e`.
abbrev pub require : Bool → ConfigError → Result (Unit {0})
require true e = ok tt
require false e = error e
