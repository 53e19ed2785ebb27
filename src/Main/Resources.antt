-- ===== src/Main/Resources.antt =====
-- What `run` of cmd/omnisshagent/main_windows.go holds, and for how long.
use omni_sshagent.Base.{
  Bool, true, false, not, ◌&&◌, List, [], ◌∷◌, Option, none, some, ◌⊎◌, ◌≡◌, arith, if◌then◌else◌,
}
use omni_sshagent.Main.{
  Action, acquired_mutex, released_mutex, created_event, closed_event, opened_log, closed_log,
  application_run, application_shutdown, Answers, tray_failed, run,
}

-- Replays the actions with the three resources that `run` may hold, and with whether components that
-- it has started may still run; `none` is an action on a resource that is not held, or that is taken
-- while it is held.
pub record Held : Type 0 where
  pub mutex : Bool
  pub event : Bool
  pub log : Bool
  pub components : Bool

abbrev pub nothing : Held
nothing = record { mutex = false; event = false; log = false; components = false }

-- One action; components are started only while all three are held and none runs.
unfoldable pub replay_one : Action → Held → Option Held
replay_one acquired_mutex h = if h.mutex then none else some (record h { mutex = true })
replay_one released_mutex h =
    if h.mutex && not h.event then some (record h { mutex = false }) else none
replay_one created_event h =
    if h.mutex && not h.event then some (record h { event = true }) else none
replay_one closed_event h = if h.event && not h.log then some (record h { event = false }) else none
replay_one opened_log h = if h.event && not h.log then some (record h { log = true }) else none
replay_one closed_log h = if h.log then some (record h { log = false }) else none
replay_one (application_run cs) h =
    if h.mutex && h.event && h.log && not h.components
    then some (record h { components = true })
    else none
replay_one (application_shutdown true) h = some (record h { components = false })
replay_one _ h = some h

unfoldable pub replay : List Action → Held → Option Held
replay [] h = some h
replay (a ∷ actions) h = elim (replay_one a h) [ none ↦ none | some h' ↦ replay actions h' ]

-- Nothing is held, and components run on only for one of two reasons.
abbrev pub IsReleased : Answers → Option Held → Type 0
IsReleased a none = ⊥
IsReleased a (some h) =
    (h.mutex ≡ false)
    × (h.event ≡ false)
    × (h.log ≡ false)
    × ((h.components ≡ false) ⊎ ((a.waited ≡ tray_failed) ⊎ (a.components_end ≡ false)))

-- However the parts of the program answer, `run` takes the mutex, the event and the log in this
-- order, each only while it is free, starts the components only while it holds all three, and has
-- given all three back, last first, when it returns. The components have then ended, unless the
-- tray has failed, where `run` does not wait for them, or `Shutdown` has run out of its time.
pub run_releases : (a : Answers) → IsReleased a (replay (run a).1 nothing)
unfolding run replay replay_one
run_releases a = ground arith
