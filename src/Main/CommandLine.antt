-- ===== src/Main/CommandLine.antt =====
-- src/main.cpp: which command lines are accepted.
use asterx_driver.Base.{
  false, List, [], ◌∷◌, Bytes, text, text_eq, text_eq_iff, choice, ◌≡◌, ◌↔◌, refl, sym, ap, ◌∙◌,
}
use asterx_driver.Receiver.Commands.{is_empty}
use asterx_driver.Main.Arguments.{Parsed, configured, is_help, at_end, parse_args}

-- An option with its value.
pub data Setting : Type 0 where
  config log_level : Bytes → Setting

abbrev pub written : List Setting → List Bytes
written [] = []
written (config path ∷ settings) = text "--config" ∷ path ∷ written settings
written (log_level level ∷ settings) = text "--log-level" ∷ level ∷ written settings

-- The last of them counts.
abbrev pub path_of : Bytes → List Setting → Bytes
path_of path [] = path
path_of path (config path' ∷ settings) = path_of path' settings
path_of path (log_level level ∷ settings) = path_of path settings

abbrev pub level_of : Bytes → List Setting → Bytes
level_of level [] = level
level_of level (config path ∷ settings) = level_of level settings
level_of level (log_level level' ∷ settings) = level_of level' settings

abbrev Parses : List Bytes → Bytes → Bytes → Bytes → Bytes → Type 0
Parses args path level p l =
    (settings : List Setting) × (args ≡ written settings)
    × (p ≡ path_of path settings)
    × (l ≡ level_of level settings)
    × (is_empty p ≡ false)

at_end_iff :
    (path level p l : Bytes)
    → (at_end path level ≡ configured p l) ↔ ((p ≡ path) × (l ≡ level) × (is_empty p ≡ false))
at_end_iff [] level p l = ((λ h. absurd (cc)), λ (e, e', n). absurd (let h = ap is_empty e in cc))
at_end_iff (b ∷ path) level p l = (
  (λ h.
      let e : b ∷ path ≡ p = cc in let e' : level ≡ l = cc in (sym e, sym e', ap is_empty (sym e))),
  λ (e, e', n). cc,
)

-- A setting before others.
config-Parses :
    (a value : Bytes) (args : List Bytes) (path level p l : Bytes)
    → a ≡ text "--config"
    → Parses args value level p l
    → Parses (a ∷ value ∷ args) path level p l
config-Parses a value args path level p l e (settings, w, e1, e2, n) = (
  config value ∷ settings,
  ap (λ x. x ∷ value ∷ args) e ∙ ap (λ s. text "--config" ∷ value ∷ s) w,
  e1,
  e2,
  n,
)

log_level-Parses :
    (a value : Bytes) (args : List Bytes) (path level p l : Bytes)
    → a ≡ text "--log-level"
    → Parses args path value p l
    → Parses (a ∷ value ∷ args) path level p l
log_level-Parses a value args path level p l e (settings, w, e1, e2, n) = (
  log_level value ∷ settings,
  ap (λ x. x ∷ value ∷ args) e ∙ ap (λ s. text "--log-level" ∷ value ∷ s) w,
  e1,
  e2,
  n,
)

parse_args-Parses :
    (args : List Bytes) (path level p l : Bytes)
    → parse_args args path level ≡ configured p l
    → Parses args path level p l
unfolding parse_args
parse_args-Parses [] path level p l =
    λ h. let (e, e', n) = (at_end_iff path level p l).0 h in ([], refl, e, e', n)
parse_args-Parses (a ∷ []) path level p l =
    choice (λ r. r ≡ configured p l → Parses (a ∷ []) path level p l) (is_help a) _ _
      (λ _ h. absurd (cc)) (λ _ h. absurd (cc))
parse_args-Parses (a ∷ value ∷ args) path level p l =
    let P : Parsed → Type 0 = λ r. r ≡ configured p l → Parses (a ∷ value ∷ args) path level p l in
    choice P (is_help a) _ _ (λ _ h. absurd (cc))
      λ _.
        choice P (text_eq a (text "--config")) _ _
          (λ e h.
            config-Parses a value args path level p l ((text_eq_iff a (text "--config")).0 e)
              (parse_args-Parses args value level p l h))
          λ _.
            choice P (text_eq a (text "--log-level")) _ _
              (λ e h.
                log_level-Parses a value args path level p l
                  ((text_eq_iff a (text "--log-level")).0 e)
                  (parse_args-Parses args path value p l h))
              (λ _ h. absurd (cc))

parse_args-written :
    (settings : List Setting) (path level : Bytes)
    → parse_args (written settings) path level
      ≡ at_end (path_of path settings) (level_of level settings)
unfolding parse_args
parse_args-written [] path level = refl
parse_args-written (config path' ∷ settings) path level = parse_args-written settings path' level
parse_args-written (log_level level' ∷ settings) path level =
    parse_args-written settings path level'

-- The program goes on with a configuration file and a level exactly when the arguments are settings,
-- each an option and its value, where the last path is not empty and is that file, and the last
-- level is that level, which is empty without one.
pub parse_args_iff :
    (args : List Bytes) (p l : Bytes)
    → (parse_args args [] [] ≡ configured p l) ↔ (
        (settings : List Setting) × (args ≡ written settings)
        × (p ≡ path_of [] settings)
        × (l ≡ level_of [] settings)
        × (is_empty p ≡ false))
parse_args_iff args p l = (
  parse_args-Parses args [] [] p l,
  λ (settings, w, e1, e2, n).
      ap (λ s. parse_args s [] []) w
      ∙ parse_args-written settings [] []
      ∙ (at_end_iff (path_of [] settings) (level_of [] settings) p l).1 (e1, e2, n),
)
