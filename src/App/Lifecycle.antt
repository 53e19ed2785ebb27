-- ===== src/App/Lifecycle.antt =====
-- internal/app/application.go: `New`, `Run`, `setState` and `Shutdown`. A worker is the goroutine
-- that `Run` starts for a component; `Step` interleaves the workers, the loop of `Run` that
-- receives the statuses, and the goroutine that waits for the workers and closes `done`.
pub mod Inv
pub mod Outcome
pub mod Progress
use omni_sshagent.Base.{
  ℕ, suc, Bool, true, false, List, [], ◌∷◌, ◌++◌, Option, none, some, is_none, ◌≡◌, length,
  if◌then◌else◌, map, All,
}
use omni_sshagent.Base.Text.{Text, codes}
use omni_sshagent.App.{State, degraded, configuration_error, Error, ComponentStatus, aggregate}

-- Where a worker stands: before its status is sent, at `<-stopped`, or behind `wg.Done`.
pub data Phase : Type 0 where
  launched : Phase
  waiting : ComponentStatus → Phase
  exited : ComponentStatus → Phase

-- `Start` of the component: it runs, its result stands in the channel `stopped`, or that was taken.
pub data Starting : Type 0 where
  running : Starting
  returned : Option Error → Starting
  taken : Starting

pub record Worker : Type 0 where
  pub name : Text
  pub has_ready : Bool
  pub phase : Phase
  pub starting : Starting

-- The case of the `select` that a worker takes.
pub data Signal : Type 0 where
  ready : Option Error → Signal
  stopped : Option Error → Signal
  cancelled : Error → Signal

abbrev status : Text → Bool → Option Error → ComponentStatus
status name is_running error = record {
  name = name;
  enabled = true;
  is_running = is_running;
  error = error;
}

select : Text → Signal → Phase × ComponentStatus
select name (ready e) = let s = status name (is_none e) e in (waiting s, s)
select name (stopped e) = let s = status name false e in (exited s, s)
select name (cancelled e) = let s = status name false (some e) in (waiting s, s)

-- A component without a `Ready` method counts as running at once.
unfoldable pub report : Worker → Signal → Phase × ComponentStatus
unfolding select
report w signal =
    if w.has_ready
    then select w.name signal
    else (let s = status w.name true none in (waiting s, s))

-- A case of the `select` is there to be taken: for `stopped`, the result of `Start`.
abbrev pub IsOffered : Worker → Signal → Type 0
IsOffered w (ready e) = Unit
IsOffered w (stopped e) = w.starting ≡ returned e
IsOffered w (cancelled e) = Unit

taken_by : Signal → Starting → Starting
taken_by (ready e) s = s
taken_by (stopped e) s = taken
taken_by (cancelled e) s = s

-- The worker behind its `select`; without a `Ready` method it has none.
unfoldable pub reported : Worker → Signal → Worker
unfolding report taken_by
reported w signal = record w {
  phase = (report w signal).0;
  starting = if w.has_ready then taken_by signal w.starting else w.starting;
}

pub record Run : Type 0 where
  pub workers : List Worker
  pub results : List ComponentStatus
  pub pending : ℕ
  pub statuses : List ComponentStatus
  pub state : State
  pub settled : Bool
  pub done : Bool

unfoldable pub launch : List (Text × Bool) → List Worker
launch [] = []
launch ((name, has_ready) ∷ components) =
    record { name = name; has_ready = has_ready; phase = launched; starting = running }
    ∷ launch components

-- `New`, and `Run` up to the loop that receives the statuses.
unfoldable pub start : List (Text × Bool) → Run
unfolding launch
start components = record {
  workers = launch components;
  results = [];
  pending = length components;
  statuses = [];
  state = degraded;
  settled = false;
  done = false;
}

-- `setState` and `SetConfigurationError`, without the log and the sink.
abbrev pub set_state : State → Run → Run
set_state s t = record t { state = s }

abbrev pub set_configuration_error : Run → Run
set_configuration_error t = set_state configuration_error t

abbrev pub HasExited : Worker → Type 0
HasExited w = (s : ComponentStatus) × (w.phase ≡ exited s)

pub data Step (t u : Run) : Type 0 where
  -- `Start` of a component returns, or panics, which counts as an error.
  return :
      (before after : List Worker) (w : Worker) (e : Option Error)
      → t.workers ≡ before ++ w ∷ after
      → w.starting ≡ running
      → u ≡ record t { workers = before ++ record w { starting = returned e } ∷ after }
      → Step t u
  send :
      (before after : List Worker) (w : Worker) (signal : Signal)
      → t.workers ≡ before ++ w ∷ after
      → w.phase ≡ launched
      → IsOffered w signal
      → u ≡ record t {
        workers = before ++ reported w signal ∷ after;
        results = t.results ++ (report w signal).1 ∷ [];
      }
      → Step t u
  -- Behind `<-stopped`, which needs a result of `Start`.
  leave :
      (before after : List Worker) (w : Worker) (s : ComponentStatus) (e : Option Error)
      → t.workers ≡ before ++ w ∷ after
      → w.phase ≡ waiting s
      → w.starting ≡ returned e
      → u ≡ record t { workers = before ++ record w { phase = exited s; starting = taken } ∷ after }
      → Step t u
  receive :
      (s : ComponentStatus) (rest : List ComponentStatus) (k : ℕ)
      → t.results ≡ s ∷ rest
      → t.pending ≡ suc k
      → u ≡ record t { results = rest; pending = k; statuses = t.statuses ++ s ∷ [] }
      → Step t u
  settle :
      t.pending ≡ 0
      → t.settled ≡ false
      → u ≡ record (set_state (aggregate none t.statuses) t) { settled = true }
      → Step t u
  close :
      t.settled ≡ true
      → t.done ≡ false
      → All HasExited t.workers
      → u ≡ record t { done = true }
      → Step t u

pub data Reach (t : Run) : Run → Type 0 where
  here : Reach t t
  next : {u v : Run} → Reach t u → Step u v → Reach t v

-- What `Shutdown` reads: whether `Run` has set `cancel`, whether it was called, and the `Once`.
pub record Stopper : Type 0 where
  pub has_cancel : Bool
  pub is_cancelled : Bool
  pub once_done : Bool

-- The channel that the `select` of `Shutdown` reads first.
pub data Waited : Type 0 where
  components_done : Waited
  timed_out : Error → Waited

unfoldable pub shutdown : Waited → Stopper → Stopper × Option Error
shutdown waited s =
    let cancels =
      if s.once_done then s.is_cancelled else if s.has_cancel then true else s.is_cancelled in
    (
      record s { is_cancelled = cancels; once_done = true },
      elim waited [
        | components_done ↦ none
        | timed_out e ↦ some (codes "shutdown components: " ++ e)
      ],
    )
