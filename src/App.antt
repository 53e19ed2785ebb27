-- ===== src/App.antt =====
-- internal/app: the states of the application and its components, `Aggregate`, `Tooltip`, and the
-- `Application` that starts the components. Lifecycle has its goroutines as interleaved steps.
pub mod Order
pub mod Lifecycle
use omni_sshagent.Base.{
  Bool, true, false, not, ◌&&◌, ◌||◌, List, [], ◌∷◌, Option, none, some, is_some, if◌then◌else◌,
  ◌++◌,
}
use omni_sshagent.Base.Text.{Text, codes}

-- The three constants of `State`.
pub data State : Type 0 where
  running degraded configuration_error : State

-- An `error` is known by its message.
abbrev pub Error : Type 0
Error = Text

pub record ComponentStatus : Type 0 where
  pub name : Text
  pub enabled : Bool
  pub is_running : Bool
  pub error : Option Error

-- The test of the loop: an enabled component that does not run, or has an error.
unfoldable pub is_failing : ComponentStatus → Bool
is_failing s = s.enabled && (not s.is_running || is_some s.error)

aggregate_statuses : List ComponentStatus → State
aggregate_statuses [] = running
aggregate_statuses (s ∷ statuses) = if is_failing s then degraded else aggregate_statuses statuses

unfoldable pub aggregate : Option Error → List ComponentStatus → State
unfolding aggregate_statuses
aggregate (some e) statuses = configuration_error
aggregate none statuses = aggregate_statuses statuses

unfoldable pub tooltip : State → Text
tooltip running = codes "OmniSSHAgent - Running"
tooltip degraded = codes "OmniSSHAgent - Degraded"
tooltip configuration_error = codes "OmniSSHAgent - Configuration error"
