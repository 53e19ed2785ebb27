-- ===== src/Legacy/Listener.antt =====
-- old/pkg/agentlistener/listener.go: the loop that accepts connections. A listener is what its calls
-- of `Accept` give one after the other, each with the state of the context at that time.
use omni_sshagent.Base.{ℕ, Bool, false, List, [], ◌∷◌, if◌then◌else◌, ◌≡◌, refl}
use omni_sshagent.Base.Text.{Text}

-- A connection, `io.EOF`, or another error.
pub data Accepted : Type 0 where
  accepted : ℕ → Accepted
  end_of_file : Accepted
  accept_failed : Text → Accepted

-- How `Serve` ends; `waits` is where the listener gives nothing more.
pub data Ending : Type 0 where
  returns_nil waits : Ending
  returns_error : Text → Ending

-- The connections for which a handler is started, and the end.
unfoldable pub serve : List (Accepted × Bool) → List ℕ × Ending
serve [] = ([], waits)
serve ((accepted conn, cancelled) ∷ events) =
    let (conns, ending) = serve events in (conn ∷ conns, ending)
serve ((end_of_file, cancelled) ∷ events) = ([], returns_nil)
serve ((accept_failed e, cancelled) ∷ events) =
    ([], if cancelled then returns_nil else returns_error e)

unfoldable pub incoming : List ℕ → List (Accepted × Bool) → List (Accepted × Bool)
incoming [] events = events
incoming (conn ∷ conns) events = (accepted conn, false) ∷ incoming conns events

-- Every connection that is accepted gets its handler, in order, until the first error of `Accept`;
-- then `Serve` ends, without an error exactly if the context was cancelled.
pub serve-incoming :
    (conns : List ℕ) (e : Text) (cancelled : Bool) (events : List (Accepted × Bool))
    → serve (incoming conns ((accept_failed e, cancelled) ∷ events))
      ≡ (conns, if cancelled then returns_nil else returns_error e)
unfolding serve incoming
serve-incoming [] e cancelled events = refl
serve-incoming (conn ∷ conns) e cancelled events = rw (serve-incoming conns e cancelled events)
