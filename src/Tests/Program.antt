-- ===== src/Tests/Program.antt =====
-- The application, the program, its log and its backends.
use omni_sshagent.Base.{
  pos, Bool, true, false, List, [], ◌∷◌, Option, none, some, ◌≡◌, refl, ok, length,
}
use omni_sshagent.Base.Text.{Text, codes}
use omni_sshagent.App.{running, degraded, ComponentStatus, aggregate, is_failing}
use omni_sshagent.App.Lifecycle.{
  Run, Worker, waiting, ready, launched, start, report, reported, Starting, returned, taken, Reach,
  here, next, Step, send, receive, settle, leave, exited,
}
use omni_sshagent.App.Lifecycle.Inv.{reports}
use omni_sshagent.App.Lifecycle.Outcome.{settled-aggregate}
use omni_sshagent.App.Lifecycle.Progress.{done_reachable}
use omni_sshagent.Backend.{Error, plain}
use omni_sshagent.Config.{RuntimeConfig, backend_embedded, level_info}
use omni_sshagent.Logging.{Answers, Writer, IsConsistent}
use omni_sshagent.Cli.{
  exit_ok, exit_internal, exit_usage, exit_configuration, prints_out, is_empty_list, run_decides,
}
use omni_sshagent.Main
use omni_sshagent.Main.{acquired, tray_ended}
use omni_sshagent.Cli
use omni_sshagent.Main.Resources.{replay, nothing, IsReleased, run_releases}

-- The window of Pageant has reported that it is ready, and `Run` has received it.
abbrev components : List (Text × Bool)
components = (codes "pageant", true) ∷ []

abbrev ready_status : ComponentStatus
ready_status = record { name = codes "pageant"; enabled = true; is_running = true; error = none }

abbrev running_worker : Worker
running_worker = record {
  name = codes "pageant";
  has_ready = true;
  phase = waiting ready_status;
  starting = Starting.running;
}

abbrev sent : Run
sent = record {
  workers = running_worker ∷ [];
  results = ready_status ∷ [];
  pending = 1;
  statuses = [];
  state = degraded;
  settled = false;
  done = false;
}

abbrev received : Run
received = record sent { results = []; pending = 0; statuses = ready_status ∷ [] }

abbrev settled : Run
settled = record received { state = running; settled = true }

sending : Step (start components) sent
unfolding start report reported
sending = send [] [] (record running_worker { phase = launched }) (ready none) refl refl tt refl

settling : Step received settled
unfolding aggregate is_failing
settling = settle refl refl refl

until_settled : Reach (start components) settled
until_settled = next (next (next here sending) (receive ready_status [] 0 refl refl refl)) settling

settled-aggregate_example :
    (settled.state ≡ aggregate none (reports settled.workers))
    × (length (reports settled.workers) ≡ length components)
settled-aggregate_example = settled-aggregate components {t = settled} until_settled refl

done_reachable_example : (u : Run) × Reach settled u × (u.done ≡ true)
done_reachable_example = done_reachable components settled until_settled

-- `Start` returns, the worker leaves, and `done` is closed.
abbrev returned_worker : Worker
returned_worker = record running_worker { starting = returned none }

abbrev left : Run
left = record settled {
  workers = record running_worker { phase = exited ready_status; starting = taken } ∷ [];
}

abbrev finished : Run
finished = record left { done = true }

until_done : Reach (start components) finished
until_done =
    next
      (next (next until_settled (Step.return [] [] running_worker none refl refl refl))
        (leave [] [] returned_worker ready_status none refl refl refl refl))
      (Step.close refl refl ((ready_status, refl), tt) refl)

abbrev stopped_status : ComponentStatus
stopped_status = record { name = codes "cygwin"; enabled = true; is_running = false; error = none }

abbrev runtime_config : RuntimeConfig
runtime_config = record {
  config_path = [];
  log_directory = [];
  backend_type = backend_embedded;
  backend_pipe_path = [];
  connect_timeout = pos 5000000000;
  cygwin_path = [];
  pageant_enabled = true;
  cygwin_enabled = false;
  show_sign_notifications = false;
  log_level = level_info;
}

abbrev good : Main.Answers
good = record {
  decision = record { start_application = true; code = 0 };
  mutex = acquired;
  event_created = true;
  has_config_path = true;
  has_log_directory = true;
  default_created = true;
  runtime_config = some runtime_config;
  has_keyring = true;
  components_end = true;
  waited = tray_ended;
}

run_releases_example : IsReleased good (replay (Main.run good).1 nothing)
run_releases_example = run_releases good

abbrev dial : Text → Option Error
dial t = some (plain (codes "i/o timeout"))

abbrev monday : Answers
monday = record { today = codes "2026-01-05"; mkdir = none; open_file = none }

abbrev tuesday : Answers
tuesday = record { today = codes "2026-01-06"; mkdir = none; open_file = some (codes "full") }

abbrev on_monday : Writer
on_monday = record {
  date = codes "2026-01-05";
  file = some (record { day = codes "2026-01-05"; is_open = true });
  open_files = 1;
}

on_monday-IsConsistent : IsConsistent on_monday
unfolding IsConsistent
on_monday-IsConsistent = (refl, refl)

abbrev cli : List Text → Cli.Decision × List Cli.Line
cli = Cli.run (ok (codes "c.toml")) (λ d args. some (d, length args)) (λ p. none) (codes "1.0")
