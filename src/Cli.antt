-- ===== src/Cli.antt =====
-- internal/cli/cli.go: `Run`. What is printed is a list of lines, each to one of the two streams.
use omni_sshagent.Base.{
  ℕ, Bool, true, false, not, ◌&&◌, ◌||◌, List, [], ◌∷◌, ◌++◌, Option, none, some, ◌==◌, ◌≡◌, ◌⊎◌,
  arith, if◌then◌else◌, Result, ok, err,
}
use omni_sshagent.Base.Text.{Text, codes, equal}

abbrev pub exit_ok : ℕ
exit_ok = 0

abbrev pub exit_internal : ℕ
exit_internal = 1

abbrev pub exit_usage : ℕ
exit_usage = 2

abbrev pub exit_configuration : ℕ
exit_configuration = 3

abbrev pub exit_already_running : ℕ
exit_already_running = 4

abbrev pub exit_windows : ℕ
exit_windows = 7

-- `Result`
pub record Decision : Type 0 where
  pub start_application : Bool
  pub code : ℕ

pub data Line : Type 0 where
  out error : Text → Line

-- What `flag` makes of the arguments: an error, which it has printed, or the path and the number
-- of arguments that are left.
abbrev pub ParseFlags : Type 0
ParseFlags = Text → List Text → Option (Text × ℕ)

abbrev pub is_empty_list {ℓ} : {A : Type ℓ} → List A → Bool
is_empty_list [] = true
is_empty_list _ = false

abbrev exit : ℕ → List Line → Decision × List Line
exit code lines = (record { start_application = false; code = code }, lines)

-- `config_path` is `DefaultConfigPath`, and `load` is `LoadRuntime`, here only its error.
module _ (config_path : Result Text Text) (parse_flags : ParseFlags) (load : Text → Option Text)
    (version : Text) where
  run_version : List Text → Decision × List Line
  run_version [] = exit exit_ok (out version ∷ [])
  run_version (_ ∷ _) = exit exit_usage (error (codes "version accepts no arguments") ∷ [])

  run_config_path : List Text → Decision × List Line
  run_config_path [] = elim config_path [
    | err e ↦ exit exit_internal (error e ∷ [])
    | ok path ↦ exit exit_ok (out path ∷ [])
  ]
  run_config_path (_ ∷ _) = exit exit_usage (error (codes "config-path accepts no arguments") ∷ [])

  check_file : Text → Decision × List Line
  check_file path = elim (load path) [
    | some e ↦ exit exit_configuration (error e ∷ [])
    | none ↦ exit exit_ok (out (codes "configuration is valid: " ++ path) ∷ [])
  ]

  check_parsed : Option (Text × ℕ) → Decision × List Line
  unfolding check_file
  check_parsed none = exit exit_usage []
  check_parsed (some (path, rest)) =
      if not (rest == 0)
      then exit exit_usage (error (codes "unexpected arguments") ∷ [])
      else check_file path

  run_check_config : List Text → Decision × List Line
  unfolding check_parsed
  run_check_config args = elim config_path [
    | err e ↦ exit exit_internal (error e ∷ [])
    | ok default_path ↦ check_parsed (parse_flags default_path args)
  ]

  run_command : Text → List Text → Decision × List Line
  unfolding run_version run_config_path run_check_config
  run_command name args =
      if equal name (codes "--version") || equal name (codes "version")
      then run_version args
      else if equal name (codes "config-path")
      then run_config_path args
      else if equal name (codes "check-config")
      then run_check_config args
      else exit exit_usage (error (codes "unknown command: " ++ name) ∷ [])

  unfoldable pub run : List Text → Decision × List Line
  unfolding run_command
  run [] = (record { start_application = true; code = exit_ok }, [])
  run (name ∷ args) = run_command name args

  -- Whether a line goes to the standard output.
  abbrev pub prints_out : List Line → Bool
  prints_out [] = false
  prints_out (out l ∷ ls) = true
  prints_out (error l ∷ ls) = prints_out ls

  -- The application starts exactly if there is no argument. Every call ends with one of four exit
  -- codes, and something is printed to the standard output exactly if there is an argument and
  -- the code is 0.
  pub run_decides :
      (args : List Text)
      → ((run args).0.start_application ≡ is_empty_list args)
        × (((run args).0.code ≡ exit_ok)
            ⊎ ((run args).0.code ≡ exit_internal)
            ⊎ ((run args).0.code ≡ exit_usage)
            ⊎ ((run args).0.code ≡ exit_configuration))
        × (prints_out (run args).1 ≡ (not (is_empty_list args) && (run args).0.code == exit_ok))
  unfolding run
  run_decides [] = ground arith
  run_decides (name ∷ args) = ground arith
