-- ===== src/Base/Text.antt =====
-- Strings as the lists of their bytes, and what the source takes from <string>, <cctype> and
-- <sstream>. The locale is "C".
use Prim.Native.Nat.{ℕ, ◌+◌}
use Prim.Native.Char.{code}
use Prim.Native.String.{String}
use mathlib.Core.Bool.{Bool, true, false, ◌&&◌, ◌||◌}
use mathlib.Core.List.{List, [], ◌∷◌}
use mathlib.Core.Option.{Option, none, some}
use asterx_driver.Base.Tests.{leb, ◌==◌, if◌then◌else◌}
use asterx_driver.Base.Words.{Bytes}

-- The bytes of an ASCII literal.
abbrev pub text : String → Bytes
text String.[] = []
text (String.◌∷◌ c s) = code c ∷ text s

abbrev pub text_eq : Bytes → Bytes → Bool
text_eq [] [] = true
text_eq [] (d ∷ t) = false
text_eq (c ∷ s) [] = false
text_eq (c ∷ s) (d ∷ t) = (c == d) && text_eq s t

-- `std::tolower` and `std::isspace`.
abbrev pub to_lower : ℕ → ℕ
to_lower c = if leb b'A' c && leb c b'Z' then c + 32 else c

abbrev pub is_space : ℕ → Bool
is_space c = (c == 32) || (leb 9 c && leb c 13)

abbrev drop_spaces : Bytes → Bytes
drop_spaces [] = []
drop_spaces (c ∷ s) = let rest = drop_spaces s in if is_space c then rest else c ∷ s

abbrev drop_if_blank : ℕ → Bytes → Bytes
drop_if_blank c [] = if is_space c then [] else c ∷ []
drop_if_blank c (d ∷ s) = c ∷ d ∷ s

abbrev drop_last_spaces : Bytes → Bytes
drop_last_spaces [] = []
drop_last_spaces (c ∷ s) = drop_if_blank c (drop_last_spaces s)

abbrev pub trim : Bytes → Bytes
trim s = drop_last_spaces (drop_spaces s)

-- What stands behind a prefix.
abbrev pub strip_prefix : Bytes → Bytes → Option Bytes
strip_prefix [] s = some s
strip_prefix (d ∷ t) [] = none
strip_prefix (d ∷ t) (c ∷ s) = if c == d then strip_prefix t s else none

-- What stands behind the first occurrence of `marker`, by `find` and `substr`.
abbrev pub after_first : Bytes → Bytes → Option Bytes
after_first marker [] = strip_prefix marker []
after_first marker (c ∷ s) =
    let later = after_first marker s in
    elim (strip_prefix marker (c ∷ s)) [ some rest ↦ some rest | none ↦ later ]

abbrev pub contains : Bytes → Bytes → Bool
contains marker s = elim (after_first marker s) [ some _ ↦ true | none ↦ false ]

-- The bytes in front of the first `sep`, or all of them.
abbrev pub before_first : ℕ → Bytes → Bytes
before_first sep [] = []
before_first sep (c ∷ s) = let rest = before_first sep s in if c == sep then [] else c ∷ rest

abbrev onto_first : ℕ → List Bytes → List Bytes
onto_first c [] = (c ∷ []) ∷ []
onto_first c (part ∷ parts) = (c ∷ part) ∷ parts

-- What the calls of `std::getline(stream, part, sep)` give: a separator at the end opens no part.
abbrev pub getlines : ℕ → Bytes → List Bytes
getlines sep [] = []
getlines sep (c ∷ s) =
    let rest = getlines sep s in if c == sep then [] ∷ rest else onto_first c rest
