-- ===== src/Legacy/Shutdown.antt =====
-- old/app.go: the goroutines of the former program from `startup` to the end of `shutdown`, as a step
-- relation, with the tray of old/pkg/wintray/wintray.go, from the start of the tray's goroutine on. No
-- other program closes its window.
pub mod Ends
use omni_sshagent.Base.{ℕ, zero, suc, ◌+◌, ◌-◌, Bool, true, false, ◌≡◌}

-- The goroutine of the tray: before its window is made, before and behind `systrayOnReady`; it has
-- panicked before `Run` deferred `systrayOnExit`; or it has run that.
pub data Phase : Type 0 where
  starting windowed ready lost ended : Phase

pub data Shutdown : Type 0 where
  not_called waiting returned : Shutdown

-- `pending` is the counter of the WaitGroup, `serving` the number of running agents. `cancel_made`
-- tells whether `cancelAgents` is set, `cancelled` whether it was called.
pub record Run : Type 0 where
  pub ring_made : Bool
  pub cancel_made : Bool
  pub cancelled : Bool
  pub started : Bool
  pub serving : ℕ
  pub pending : ℕ
  pub tray : Phase
  pub close_posted : Bool
  pub shutdown : Shutdown

-- `a.wg.Add(1)` and `go` of the tray.
unfoldable pub start : Run
start = record {
  ring_made = false;
  cancel_made = false;
  cancelled = false;
  started = false;
  serving = 0;
  pending = 1;
  tray = starting;
  close_posted = false;
  shutdown = not_called;
}

-- `PostMessage` reaches a window that is there.
unfoldable pub has_window : Phase → Bool
has_window starting = false
has_window windowed = true
has_window ready = true
has_window lost = true
has_window ended = false

unfoldable pub has_exited : Phase → Bool
has_exited ended = true
has_exited starting = false
has_exited windowed = false
has_exited ready = false
has_exited lost = false

-- Steps in which nothing fails.
pub data Orderly : Run → Run → Type 0 where
  -- `startup`: the key ring, the context of the agents, and then one agent after the other.
  ring_made : (s : Run) → s.ring_made ≡ false → Orderly s (record s { ring_made = true })
  cancel_made :
      (s : Run)
      → s.ring_made ≡ true
      → s.cancel_made ≡ false
      → Orderly s (record s { cancel_made = true })
  agent_started :
      (s : Run)
      → s.cancel_made ≡ true
      → s.started ≡ false
      → Orderly s (record s { serving = suc s.serving; pending = suc s.pending })
  startup_ended :
      (s : Run) → s.cancel_made ≡ true → s.started ≡ false → Orderly s (record s { started = true })
  -- `Run` of the tray.
  window_made : (s : Run) → s.tray ≡ starting → Orderly s (record s { tray = windowed })
  on_ready :
      (s : Run) → s.tray ≡ windowed → s.ring_made ≡ true → Orderly s (record s { tray = ready })
  tray_closed :
      (s : Run)
      → s.tray ≡ ready
      → s.close_posted ≡ true
      → Orderly s (record s { tray = ended; pending = s.pending - 1 })
  -- An agent whose context is cancelled.
  agent_stopped :
      (s : Run) {n : ℕ}
      → s.serving ≡ suc n
      → s.cancelled ≡ true
      → Orderly s (record s { serving = n; pending = s.pending - 1 })
  -- `shutdown`, at any time, before and behind the `Wait`: it cancels the agents if there is a
  -- `cancelAgents`, and posts the message.
  shutdown_called :
      (s : Run)
      → s.shutdown ≡ not_called
      → Orderly s (record s {
        shutdown = waiting;
        cancelled = s.cancel_made;
        close_posted = has_window s.tray;
      })
  shutdown_returned :
      (s : Run)
      → s.shutdown ≡ waiting
      → s.pending ≡ 0
      → Orderly s (record s { shutdown = returned })

-- Any step: an agent may end with an error, and `systrayOnReady` panics where the key ring is nil.
pub data Step : Run → Run → Type 0 where
  orderly : {s t : Run} → Orderly s t → Step s t
  agent_failed :
      (s : Run) {n : ℕ}
      → s.serving ≡ suc n
      → Step s (record s { serving = n; pending = s.pending - 1 })
  on_ready_panicked :
      (s : Run) → s.tray ≡ windowed → s.ring_made ≡ false → Step s (record s { tray = lost })

pub data Reach (R : Run → Run → Type 0) (s : Run) : Run → Type 0 where
  here : Reach R s s
  next : {t u : Run} → Reach R s t → R t u → Reach R s u
