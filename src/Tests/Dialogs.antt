-- ===== src/Tests/Dialogs.antt =====
-- `Run` of the tray, and the dialogs, on a screen on which nothing fails but what is said.
use omni_sshagent.Base.{true, false, List, [], ◌∷◌, none, refl, ok, pos, arith, All, ◌≡◌, ◌-◌, ◌^◌}
use omni_sshagent.Base.Text.{codes}
use omni_sshagent.Files.{Bytes}
use omni_sshagent.Tray.Machine.{Answers, new_tray, wm_destroy}
use omni_sshagent.Tray.Machine.Runs.{Event, quitting, message}
use omni_sshagent.Tray.Run.{no_error, number_zero, Startup, quit_message, run}
use omni_sshagent.Tray.Run.Released.{Ends, run-Releases}
use omni_sshagent.Tray.Dialog.{scaled}
use omni_sshagent.Tray.Dialog.Windows.{
  Screen, registered, window_gone, open_settings, open_keys, open_password, settings_controls,
  keys_controls, password_controls, settings_size, keys_size, password_size,
}
use omni_sshagent.Tray.Dialog.Windows.Layout.{IsInside, controls-IsInside}
use omni_sshagent.Tray.Dialog.Windows.Released.{Releases, dialogs-Releases}

abbrev answers : Answers
answers = record {
  create_default = none;
  toggle = none;
  settings = none;
  auto_start = ok true;
  set_auto_start = none;
  icon_accepted = true;
  cursor_known = true;
  has_on_quit = true;
}

-- A file with one entry, of 16 by 16 points and three bytes, behind its directory.
abbrev ico : Bytes
ico =
    0 ∷ 0 ∷ 1 ∷ 0 ∷ 1 ∷ 0 ∷ 16 ∷ 16 ∷ 0 ∷ 0 ∷ 1 ∷ 0 ∷ 32 ∷ 0 ∷ 3 ∷ 0 ∷ 0 ∷ 0 ∷ 22 ∷ 0 ∷ 0 ∷ 0 ∷ 137
    ∷ 80 ∷ 78 ∷ []

abbrev startup : Startup
startup = record {
  module_handle = (1, no_error);
  register_class = (49200, no_error);
  create_window = (5, no_error);
  taskbar_message = (49300, no_error);
  icon_file = ok ico;
  icon_width = pos 16;
  icon_height = pos 0;
  create_icon_handle = λ b. (6, no_error);
  create_menu = (8, no_error);
  append_menu = λ e. (1, no_error);
  icon_error = number_zero;
  answers = answers;
}

-- The taskbar restarts, the user quits, and the window goes.
abbrev events : List Event
events = message 49300 0 0 answers ∷ quitting ∷ message wm_destroy 0 0 answers ∷ []

run-Releases_example : Ends startup new_tray (run startup events quit_message false new_tray)
unfolding new_tray
run-Releases_example = run-Releases startup events quit_message new_tray refl (omega arith)

abbrev screen : Screen
screen = record {
  dpi = 144;
  module_handle = 1;
  encodes = λ t. true;
  register_class = λ t. registered;
  popup = λ t size. 5;
  child = λ c. c.id;
}

-- The label of the passphrase has the identifier 0, which this screen takes for a failure.
dialogs-Releases_example :
    Releases window_gone (open_settings screen 3 false true true window_gone)
    × Releases window_gone (open_keys screen 3 false true true window_gone)
    × Releases window_gone (open_password screen 3 (codes "key") window_gone)
dialogs-Releases_example = dialogs-Releases screen 3 false true true (codes "key") window_gone

controls-IsInside_example :
    All (IsInside (settings_size 144)) (settings_controls 144)
    × All (IsInside (keys_size 144)) (keys_controls 144)
    × All (IsInside (password_size 144)) (password_controls 144 (codes "key"))
controls-IsInside_example = controls-IsInside 144 (codes "key") (omega arith)

-- At a resolution that is too high for `int32`, the width wraps to a negative number.
wrapped : scaled 5000000 492 ≡ 2 ^ 32 - 19114242
unfolding scaled
wrapped = refl
