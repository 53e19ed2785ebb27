-- ===== src/Tests/Process.antt =====
-- The OpenSSH pipe, the mutex and the shutdown event of one process.
use omni_sshagent.Base.{true, false, [], ◌∷◌, Option, none, some, ok, ◌≡◌, refl}
use omni_sshagent.Base.Text.{codes}
use omni_sshagent.Files.{OsError}
use omni_sshagent.Autostart.{Registry, Answers}
use omni_sshagent.Interfaces.{serve_failed}
use omni_sshagent.Pipe.{
  Network, Client, connected, failed, handle, serve, warn, IsGuarded, start, start-IsGuarded,
}
use omni_sshagent.Pipe.{close as close_connection}
use omni_sshagent.Singleton.{Windows, created}
use omni_sshagent.Control.{wait, signalled, elapsed}

abbrev client : Client
client = record { outcome = serve_failed (codes "eof"); closed_early = false; is_cancelled = false }

handle_run : handle true client ≡ serve ∷ warn ∷ close_connection ∷ []
unfolding handle
handle_run = refl

abbrev network : Network
network = record {
  user = ok (some (codes "S-1-5-21-7"));
  listen = none;
  accepts = connected client ∷ failed false (codes "broken") ∷ [];
}

start-IsGuarded_example : IsGuarded network (start network)
start-IsGuarded_example = start-IsGuarded network

abbrev second : Windows
second = record { utf16_error = none; create_mutex = created 5; last_error_exists = true }

abbrev refusal : Option OsError
refusal = some (codes "denied")

abbrev no_error : Option OsError
no_error = none

wait_run : wait (elapsed none ∷ elapsed none ∷ signalled ∷ []) ≡ some none
unfolding wait
wait_run = refl

-- A registry without the key `Run`.
abbrev registry : Registry
registry = record { has_key = false; value = none }

abbrev answers : Answers
answers = record { executable = ok (codes "C:\\a.exe"); key_error = none; value_error = none }
