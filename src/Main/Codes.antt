-- ===== src/Main/Codes.antt =====
-- src/main.cpp: what the exit code 2 means.
use asterx_driver.Base.{
  ℕ, zero, suc, List, [], ◌∷◌, Bytes, text, text_eq, choice, ◌≡◌, ◌≢◌, ◌↔◌, refl, sym, ap, ◌∙◌,
}
use asterx_driver.Receiver.Settings.{Numbers}
use asterx_driver.Receiver.Commands.{is_empty}
use asterx_driver.Recorder.Wrote.{Reliable}
use asterx_driver.AppConfig.Document.{Yaml, Loaded, loaded, failed, LoadError}
use asterx_driver.AppConfig.{AppConfig, load_app_config}
use asterx_driver.Main.Arguments.{Parsed, exits, configured, is_help, at_end, parse_args}
use asterx_driver.Main.Session.{Environment, World, Finish, exited, running, undefined, initial}
use asterx_driver.Main.{with_level, after_load, after_arguments, main}
use asterx_driver.Main.Records.{Records, session-Records}

-- The command line is no reason for the code 2.
abbrev IsUsual : Parsed → Type 0
IsUsual (exits code) = code ≢ 2
IsUsual (configured path level) = Unit

at_end-IsUsual : (path level : Bytes) → IsUsual (at_end path level)
at_end-IsUsual path level = choice IsUsual (is_empty path) _ _ (λ _ e. cc) (λ _. tt)

parse_args-IsUsual : (args : List Bytes) (path level : Bytes) → IsUsual (parse_args args path level)
unfolding parse_args
parse_args-IsUsual [] path level = at_end-IsUsual path level
parse_args-IsUsual (a ∷ []) path level = choice IsUsual (is_help a) _ _ (λ _ e. cc) (λ _ e. cc)
parse_args-IsUsual (a ∷ value ∷ args) path level =
    choice IsUsual (is_help a) _ _ (λ _ e. cc)
      λ _.
        choice IsUsual (text_eq a (text "--config")) _ _ (λ _. parse_args-IsUsual args value level)
          λ _.
            choice IsUsual (text_eq a (text "--log-level")) _ _
              (λ _. parse_args-IsUsual args path value) (λ _ e. cc)

module _ {N D : Type 0} (yaml : Yaml N D) (num : Numbers D) (env : Environment)
    (rel : Reliable env.os) (fuel : ℕ) where
  Records-code : (cfg : AppConfig D) (f : Finish) (w : World) → Records num cfg f → f ≢ exited 2 w
  Records-code cfg (exited zero v) w h e = cc
  Records-code cfg (exited (suc code) v) w (c, none_recorded, sent) e = cc
  Records-code cfg running w h e = cc
  Records-code cfg undefined w h e = cc

  after_load_iff :
      (level : Bytes) (r : Loaded (AppConfig D)) (w : World)
      → (after_load yaml num env fuel level r ≡ exited 2 w)
        ↔ ((e : LoadError) × (r ≡ failed e) × (w ≡ initial))
  after_load_iff level (failed e) w = ((λ h. (e, refl, cc)), λ (e', h, h'). ap (exited 2) (sym h'))
  after_load_iff level (loaded cfg) w = (
    (λ h. absurd (Records-code (with_level level cfg) _ w (session-Records num _ env rel fuel) h)),
    λ (e', h, h'). absurd (cc),
  )

  after_arguments_iff :
      (r : Parsed) (w : World)
      → IsUsual r
      → (after_arguments yaml num env fuel r ≡ exited 2 w) ↔ (
          (path level : Bytes) × (e : LoadError) × (r ≡ configured path level)
          × (load_app_config yaml num path ≡ failed e)
          × (w ≡ initial))
  after_arguments_iff (exits code) w u =
      ((λ h. absurd (u (cc))), λ (path, level, e, h, h', h''). absurd (cc))
  after_arguments_iff (configured path level) w u =
      let both = after_load_iff level (load_app_config yaml num path) w in
      (
        (λ h. let (e, h', h'') = both.0 h in (path, level, e, refl, h', h'')),
        λ (path', level', e, h, h', h'').
            let same : path ≡ path' = cc in
            both.1 (e, ap (load_app_config yaml num) same ∙ h', h''),
      )

  -- On a system that grants every call, the program ends with code 2 exactly when the command line
  -- names a configuration that cannot be loaded; no connection was made and nothing recorded then.
  pub main_refused_iff :
      (args : List Bytes) (w : World)
      → (main yaml num env fuel args ≡ exited 2 w) ↔ (
          (path level : Bytes) × (e : LoadError) × (parse_args args [] [] ≡ configured path level)
          × (load_app_config yaml num path ≡ failed e)
          × (w ≡ initial))
  unfolding main
  main_refused_iff args w =
      after_arguments_iff (parse_args args [] []) w (parse_args-IsUsual args [] [])
