-- ===== src/AppConfig/Document.antt =====
-- What src/app_config.cpp uses of the YAML library, and its readers of values.
use asterx_driver.Base.{
  ℕ, Bool, true, false, List, Option, none, some, if◌then◌else◌, Bytes, ◌&&◌, leb, text, ◌==◌,
}
use asterx_driver.Receiver.Settings.{ℤ, pos, negsuc, Vec3, AttitudeOffset, ConfigError}

-- `none` is an exception of the library.
pub record Yaml (N D : Type 0) : Type 0 where
  pub load_file : Bytes → Option N
  -- `n["key"]`, which may be a node that is not defined, and `n[i]`
  pub get : N → Bytes → Option N
  pub at : N → ℕ → Option N
  pub defined : N → Bool
  pub is_sequence : N → Bool
  pub is_map : N → Bool
  pub size : N → ℕ
  pub items : N → List N
  pub to_int : N → Option ℤ
  pub to_uint64 : N → Option ℕ
  pub to_double : N → Option D
  pub to_bool : N → Option Bool
  pub to_text : N → Option Bytes

-- What `load_app_config` throws: all as `ConfigLoadError`.
pub data LoadError : Type 0 where
  no_file bad_port not_three_values no_xyz no_heading_pitch yaml_error : LoadError
  config : ConfigError → LoadError

pub data Loaded {ℓ} (A : Type ℓ) : Type ℓ where
  loaded : A → Loaded A
  failed : LoadError → Loaded A

infixl 5 ◌>>=◌ ◌>>◌
abbrev pub ◌>>=◌ {ℓ κ} : {A : Type ℓ} {B : Type κ} → Loaded A → (A → Loaded B) → Loaded B
loaded a >>= k = k a
failed e >>= k = failed e

abbrev pub ◌>>◌ {ℓ} : {B : Type ℓ} → Loaded (Unit {0}) → Loaded B → Loaded B
m >> k = m >>= λ _. k

abbrev pub require : Bool → LoadError → Loaded (Unit {0})
require true e = loaded tt
require false e = failed e

abbrev pub from {ℓ} : {A : Type ℓ} → Option A → Loaded A
from none = failed yaml_error
from (some a) = loaded a

-- A port in 1..65535.
abbrev pub port_of : ℤ → Loaded ℕ
port_of (pos n) = if leb 1 n && leb n 65535 then loaded n else failed bad_port
port_of (negsuc n) = failed bad_port

module _ {N D : Type 0} (yaml : Yaml N D) where
  abbrev pub node : N → Bytes → Loaded N
  node n key = from (yaml.get n key)

  abbrev pub as_int : N → Loaded ℤ
  as_int n = from (yaml.to_int n)

  abbrev pub as_uint64 : N → Loaded ℕ
  as_uint64 n = from (yaml.to_uint64 n)

  abbrev pub as_double : N → Loaded D
  as_double n = from (yaml.to_double n)

  abbrev pub as_bool : N → Loaded Bool
  as_bool n = from (yaml.to_bool n)

  abbrev pub as_string : N → Loaded Bytes
  as_string n = from (yaml.to_text n)

  -- `if (n[key]) target = read(n[key]);`
  unfoldable pub field : {A : Type 0} → N → Bytes → (N → Loaded A) → A → Loaded A
  field n key read old = do m ← node n key; if yaml.defined m then read m else loaded old

  -- `if (auto m = n[key]) { ... }`, on an object that the block changes.
  abbrev pub section_of : {A : Type 0} → N → Bytes → (N → A → Loaded A) → A → Loaded A
  section_of n key parse old = field n key (λ m. parse m old) old

  unfoldable pub read_port : N → Bytes → Loaded ℕ
  read_port n key = do m ← node n key; value ← as_int m; port_of value

  -- `n[key]` is a defined node.
  abbrev pub has : N → Bytes → Loaded Bool
  has n key = do m ← node n key; loaded (yaml.defined m)

  abbrev three_items : N → Loaded (Vec3 D)
  three_items n = do
    require (yaml.size n == 3) not_three_values
    x ← from (yaml.at n 0)
    a ← as_double x
    y ← from (yaml.at n 1)
    b ← as_double y
    z ← from (yaml.at n 2)
    c ← as_double z
    loaded (record { x = a; y = b; z = c })

  abbrev number_at : N → Bytes → Loaded D
  number_at n key = do m ← node n key; as_double m

  abbrev three_fields : N → Loaded (Vec3 D)
  three_fields n = do
    require (yaml.is_map n) no_xyz
    has_x ← has n (text "x")
    require has_x no_xyz
    has_y ← has n (text "y")
    require has_y no_xyz
    has_z ← has n (text "z")
    require has_z no_xyz
    a ← number_at n (text "x")
    b ← number_at n (text "y")
    c ← number_at n (text "z")
    loaded (record { x = a; y = b; z = c })

  -- The node is defined where this is called.
  unfoldable pub read_vec3 : N → Loaded (Vec3 D)
  read_vec3 n = if yaml.is_sequence n then three_items n else three_fields n

  unfoldable pub read_attitude_offset : N → Loaded (AttitudeOffset D)
  read_attitude_offset n = do
    require (yaml.is_map n) no_heading_pitch
    has_heading ← has n (text "heading")
    require has_heading no_heading_pitch
    has_pitch ← has n (text "pitch")
    require has_pitch no_heading_pitch
    heading ← number_at n (text "heading")
    pitch ← number_at n (text "pitch")
    loaded (record { heading_deg = heading; pitch_deg = pitch })
