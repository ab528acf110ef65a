-- ===== src/AppConfig/Example.antt =====
-- A library for documents that knows maps, sequences and texts, and a document.
use asterx_driver.Base.{
  ℕ, zero, suc, Bool, true, false, List, [], ◌∷◌, Option, none, some, if◌then◌else◌, Bytes, text,
  text_eq,
}
use asterx_driver.Receiver.Settings.{ℤ, pos}
use asterx_driver.Receiver.Example.{read_from}
use asterx_driver.AppConfig.Document.{Yaml}

-- A map is a chain of entries, and a sequence one of elements.
pub data Doc : Type 0 where
  missing : Doc
  scalar : Bytes → Doc
  empty_map : Doc
  entry : Bytes → Doc → Doc → Doc
  empty_sequence : Doc
  element : Doc → Doc → Doc

abbrev pub get_in : Doc → Bytes → Option Doc
get_in (entry k v rest) key = let later = get_in rest key in if text_eq k key then some v else later
get_in (scalar s) key = none
get_in _ key = some missing

abbrev pub is_defined : Doc → Bool
is_defined missing = false
is_defined _ = true

abbrev pub is_map_doc : Doc → Bool
is_map_doc empty_map = true
is_map_doc (entry k v rest) = true
is_map_doc _ = false

abbrev pub is_sequence_doc : Doc → Bool
is_sequence_doc empty_sequence = true
is_sequence_doc (element v rest) = true
is_sequence_doc _ = false

abbrev pub items_of : Doc → List Doc
items_of (element v rest) = v ∷ items_of rest
items_of _ = []

abbrev pub count_of : Doc → ℕ
count_of (element v rest) = suc (count_of rest)
count_of _ = 0

abbrev pub at_index : Doc → ℕ → Option Doc
at_index (element v rest) zero = some v
at_index (element v rest) (suc i) = at_index rest i
at_index _ i = none

abbrev pub text_of : Doc → Option Bytes
text_of (scalar s) = some s
text_of _ = none

abbrev pub number_of : Doc → Option ℕ
number_of (scalar s) = some (read_from 0 s)
number_of _ = none

abbrev pub int_of : Doc → Option ℤ
int_of (scalar s) = some (pos (read_from 0 s))
int_of _ = none

abbrev pub bool_of : Doc → Option Bool
bool_of (scalar s) = some (text_eq s (text "true"))
bool_of _ = none

abbrev pub yaml_with : Doc → Yaml Doc ℕ
yaml_with root = record {
  load_file = λ path. some root;
  get = get_in;
  at = at_index;
  defined = is_defined;
  is_sequence = is_sequence_doc;
  is_map = is_map_doc;
  size = count_of;
  items = items_of;
  to_int = int_of;
  to_uint64 = number_of;
  to_double = number_of;
  to_bool = bool_of;
  to_text = text_of;
}

abbrev pub lever_arm : Doc
lever_arm =
    element (scalar (text "0.100"))
      (element (scalar (text "0.200")) (element (scalar (text "0.300")) empty_sequence))

abbrev pub document_with : Doc → Doc
document_with imu =
    entry (text "connection")
      (entry (text "host") (scalar (text "192.0.2.10"))
        (entry (text "port") (scalar (text "28784")) empty_map))
      (entry (text "receiver") (entry (text "imu") imu empty_map) empty_map)

abbrev pub legacy : Doc
legacy = document_with (
    entry (text "use_sensor_default") (scalar (text "false"))
      (entry (text "ant_lever_arm_m") lever_arm empty_map))
