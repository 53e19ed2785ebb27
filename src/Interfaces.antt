-- ===== src/Interfaces.antt =====
-- internal/interfaces/interface.go: what the components share. `reportReady` of the three
-- components in internal/interfaces/cygwin, internal/interfaces/opensshpipe and
-- internal/interfaces/pageant is the same code.
use omni_sshagent.Base.{Option, none, some, Bool, true, false}
use omni_sshagent.Base.Text.{Text}

abbrev pub Error : Type 0
Error = Text

-- The channel `ready` has room for one value, and the `Once` lets one value in.
abbrev pub Ready : Type 0 → Type 0
Ready E = Option (Option E)

unfoldable pub report_ready : {E : Type 0} → Option E → Ready E → Ready E
report_ready e none = some e
report_ready e (some first) = some first

-- The deferred function of each `Start`: an error that is returned is reported too.
unfoldable pub report_result : {E : Type 0} → Option E → Ready E → Ready E
unfolding report_ready
report_result none ready = ready
report_result (some e) ready = report_ready (some e) ready

-- A `Start` that waits for its next client or message, or has returned.
pub data Outcome (E : Type 0) : Type 0 where
  waiting : Outcome E
  returned : Option E → Outcome E

-- What `agent.ServeAgent` returns.
pub data Served : Type 0 where
  served : Served
  end_of_file : Served
  serve_failed : Error → Served

abbrev pub is_failure : Served → Bool
is_failure (serve_failed e) = true
is_failure _ = false
