-- ===== src/Main/Arguments.antt =====
-- src/main.cpp: the command line.
use asterx_driver.Base.{ℕ, Bool, ◌||◌, List, [], ◌∷◌, if◌then◌else◌, Bytes, text, text_eq}
use asterx_driver.Receiver.Commands.{is_empty}

-- The program ends with a code, or has a configuration file and a level, which may be empty.
pub data Parsed : Type 0 where
  exits : ℕ → Parsed
  configured : Bytes → Bytes → Parsed

abbrev pub is_help : Bytes → Bool
is_help a = text_eq a (text "--help") || text_eq a (text "-h")

abbrev pub at_end : Bytes → Bytes → Parsed
at_end config_path log_level =
    if is_empty config_path then exits 3 else configured config_path log_level

-- The arguments behind the program's name.
unfoldable pub parse_args : List Bytes → Bytes → Bytes → Parsed
parse_args [] config_path log_level = at_end config_path log_level
parse_args (a ∷ []) config_path log_level = if is_help a then exits 0 else exits 3
parse_args (a ∷ value ∷ args) config_path log_level =
    let with_config = parse_args args value log_level in
    let with_level = parse_args args config_path value in
    if is_help a
    then exits 0
    else if text_eq a (text "--config")
    then with_config
    else if text_eq a (text "--log-level")
    then with_level
    else exits 3
