-- ===== src/Main.antt =====
-- cmd/omnisshagent/main_windows.go: `run`, `newBackend` and `newComponents`. The parts that have
-- modules of their own answer here; `run` is the list of what it does with them and an exit code.
pub mod Resources
use omni_sshagent.Base.{
  ℕ, Bool, true, false, not, ◌&&◌, ◌||◌, List, [], ◌∷◌, ◌++◌, Option, none, some, ◌==◌,
  if◌then◌else◌, Result, ok, err,
}
use omni_sshagent.Base.Text.{Text, codes, equal}
use omni_sshagent.App.{State, degraded, configuration_error}
use omni_sshagent.Config.{RuntimeConfig, backend_windows_openssh, backend_embedded}
use omni_sshagent.Cli.{Decision, exit_ok, exit_internal, exit_already_running, exit_windows}

pub data Backend : Type 0 where
  openssh_client : Text → Backend
  embedded_keyring : Backend

pub data Component : Type 0 where
  openssh_pipe pageant_window cygwin_socket : Component

-- `newBackend`; the flag says whether `embedded.New` succeeds.
unfoldable pub new_backend : Bool → RuntimeConfig → Option Backend
new_backend has_keyring cfg =
    if equal cfg.backend_type backend_windows_openssh
    then some (openssh_client cfg.backend_pipe_path)
    else if equal cfg.backend_type backend_embedded
    then (if has_keyring then some embedded_keyring else none)
    else none

abbrev when {ℓ} : {A : Type ℓ} → Bool → A → List A
when b a = if b then a ∷ [] else []

unfoldable pub new_components : RuntimeConfig → List Component
new_components cfg =
    when (equal cfg.backend_type backend_embedded) openssh_pipe
    ++ (when cfg.pageant_enabled pageant_window ++ when cfg.cygwin_enabled cygwin_socket)

pub data Action : Type 0 where
  acquired_mutex released_mutex : Action
  created_event closed_event : Action
  opened_log closed_log : Action
  started_tray : Action
  tray_state : State → Action
  backend_set : Backend → Action
  -- `Run` of the application, which returns while the components that it has started go on.
  application_run : List Component → Action
  -- `Shutdown`, and whether the components ended in time.
  application_shutdown : Bool → Action
  cancelled : Action

pub data Acquired : Type 0 where
  acquired already_running not_acquired : Acquired

-- How the wait behind the start ends: the tray has returned, with an error or not, or the context
-- is done.
pub data Waited : Type 0 where
  tray_failed tray_ended context_done : Waited

pub record Answers : Type 0 where
  pub decision : Decision
  pub mutex : Acquired
  pub event_created : Bool
  pub has_config_path : Bool
  pub has_log_directory : Bool
  pub default_created : Bool
  pub runtime_config : Option RuntimeConfig
  pub has_keyring : Bool
  pub waited : Waited
  -- Whether `Shutdown` returns before its ten seconds are over.
  pub components_end : Bool

-- With a valid configuration the log is opened anew, and the components run with a backend.
with_config : Bool → RuntimeConfig → List Action
with_config has_keyring cfg = closed_log ∷ opened_log ∷ elim (new_backend has_keyring cfg) [
  | none ↦ tray_state degraded ∷ []
  | some b ↦ backend_set b ∷ application_run (new_components cfg) ∷ []
]

has_application : Bool → RuntimeConfig → Bool
has_application has_keyring cfg = elim (new_backend has_keyring cfg) [
  | none ↦ false
  | some b ↦ true
]

-- An error of `CreateDefault` counts as one of the configuration.
usable_config : Answers → Option RuntimeConfig
usable_config a = if a.default_created then a.runtime_config else none

start_application : Option RuntimeConfig → Bool → List Action
unfolding with_config
start_application none has_keyring = tray_state configuration_error ∷ []
start_application (some cfg) has_keyring = with_config has_keyring cfg

is_application : Option RuntimeConfig → Bool → Bool
unfolding has_application
is_application none has_keyring = false
is_application (some cfg) has_keyring = has_application has_keyring cfg

-- A tray that fails ends `run` at once; otherwise the context is cancelled and the components are
-- waited for.
stop : Waited → Bool → Bool → ℕ × List Action
stop tray_failed running ends = (exit_windows, [])
stop tray_ended running ends = (exit_ok, cancelled ∷ when running (application_shutdown ends))
stop context_done running ends = (exit_ok, cancelled ∷ when running (application_shutdown ends))

-- `run` once the log is open. The deferred calls stand at the end, last first.
run_logged : Answers → ℕ × List Action
unfolding usable_config start_application is_application stop
run_logged a =
    let (code, stopping) =
      stop a.waited (is_application (usable_config a) a.has_keyring) a.components_end in
    (
      code,
      opened_log
          ∷ started_tray
          ∷ (start_application (usable_config a) a.has_keyring
              ++ (stopping ++ cancelled ∷ closed_log ∷ [])),
    )

run_paths : Answers → ℕ × List Action
unfolding run_logged
run_paths a =
    if not a.has_config_path || not a.has_log_directory then (exit_internal, []) else run_logged a

run_event : Answers → ℕ × List Action
unfolding run_paths
run_event a =
    if not a.event_created
    then (exit_windows, [])
    else (let (code, actions) = run_paths a in
        (code, created_event ∷ (actions ++ closed_event ∷ [])))

run_acquired : Acquired → Answers → ℕ × List Action
unfolding run_event
run_acquired already_running a = (exit_already_running, [])
run_acquired not_acquired a = (exit_windows, [])
run_acquired acquired a =
    let (code, actions) = run_event a in (code, acquired_mutex ∷ (actions ++ released_mutex ∷ []))

unfoldable pub run : Answers → ℕ × List Action
unfolding run_acquired
run a = if not a.decision.start_application then (a.decision.code, []) else run_acquired a.mutex a
