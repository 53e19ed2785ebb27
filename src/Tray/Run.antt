-- ===== src/Tray/Run.antt =====
-- internal/tray/tray_windows.go: `Run` and `initialize`, from the window class to the last message.
-- The calls of Windows are parameters; the methods that the messages run are those of
-- `Tray.Machine`.
pub mod Handles
pub mod Released
use omni_sshagent.Base.{
  ℕ, zero, suc, ◌+◌, Bool, true, false, List, [], ◌∷◌, ◌++◌, map, Option, none, some, ◌==◌,
  if◌then◌else◌, Result, ok, err, ℤ, pos, negsuc,
}
use omni_sshagent.Base.Text.{Text, codes, is_empty}
use omni_sshagent.Files.{OsError, Bytes}
use omni_sshagent.Tray.Icon.{create_icon, Image, image}
use omni_sshagent.Tray.Machine.{
  Tray, Call, icon_added, fatal_shown, Answers, add_icon, apply_state, apply_menu_checks, close,
  menu_open_config, menu_open_config_dir, menu_open_log_dir, menu_settings, menu_pageant,
  menu_cygwin, menu_auto_start, menu_quit,
}
use omni_sshagent.Tray.Machine.Runs.{Event}
use omni_sshagent.Tray.Machine.Runs

-- The `error` behind a call: none, the number 0, or another one.
pub data CallError : Type 0 where
  no_error number_zero : CallError
  os_error : OsError → CallError

-- `winErr`
unfoldable pub win_err : CallError → OsError
win_err no_error = codes "Windows API call failed"
win_err number_zero = codes "Windows API call failed without an extended error code"
win_err (os_error e) = e

-- `int32Result` of a call.
unfoldable pub int32_result : ℤ → ℕ
int32_result (pos zero) = 16
int32_result (pos (suc n)) = suc n
int32_result (negsuc n) = 16

-- `menuEntry`
pub record MenuEntry : Type 0 where
  pub flags : ℕ
  pub id : ℕ
  pub text : Text

abbrev pub separator : MenuEntry
separator = record { flags = 0x800; id = 0; text = [] }

abbrev pub menu_status : ℕ
menu_status = 1001

-- `mfDisabled` is 2, the other flags are 0.
abbrev pub plain : ℕ → Text → MenuEntry
plain id text = record { flags = 0; id = id; text = text }

-- `requiredMenuEntries`
unfoldable pub required_menu_entries : List MenuEntry
required_menu_entries =
    record { flags = 2; id = menu_status; text = codes "Status: Degraded" }
    ∷ separator
    ∷ plain menu_open_config (codes "Open configuration")
    ∷ plain menu_open_config_dir (codes "Open configuration directory")
    ∷ plain menu_open_log_dir (codes "Open log directory")
    ∷ separator
    ∷ plain menu_settings (codes "Settings")
    ∷ plain menu_pageant (codes "Enable Pageant interface")
    ∷ plain menu_cygwin (codes "Enable Cygwin/MSYS2 interface")
    ∷ plain menu_auto_start (codes "Start with Windows")
    ∷ separator
    ∷ plain menu_quit (codes "Quit")
    ∷ []

pub data Act : Type 0 where
  class_registered : Act
  window_made icon_made menu_made : ℕ → Act
  entry_appended : MenuEntry → Act
  called : Call → Act

pub data RunError : Type 0 where
  already_active : RunError
  call_failed : OsError → RunError
  -- `createIcon` refuses the bytes.
  icon_refused : OsError → RunError

-- What Windows answers while the tray starts. A handle of 0 is a failure, with the error beside it.
pub record Startup : Type 0 where
  pub module_handle : ℕ × CallError
  pub register_class : ℕ × CallError
  pub create_window : ℕ × CallError
  pub taskbar_message : ℕ × CallError
  pub icon_file : Result OsError Bytes
  pub icon_width : ℤ
  pub icon_height : ℤ
  pub create_icon_handle : Bytes → ℕ × CallError
  pub create_menu : ℕ × CallError
  pub append_menu : MenuEntry → ℕ × CallError
  -- `nimAdd` fails with this error where the answers do not accept the icon.
  pub icon_error : CallError
  pub answers : Answers

pub record Started : Type 0 where
  pub tray : Tray
  pub acts : List Act
  pub error : Option RunError

-- A call that returns 0 ends with its error; what was done before stays done.
unfoldable pub checked : ℕ × CallError → Tray → (ℕ → Started) → Started
checked (handle, e) t next =
    if handle == 0
    then record { tray = t; acts = []; error = some (call_failed (win_err e)) }
    else next handle

abbrev pub doing : List Act → Started → Started
doing acts s = record s { acts = acts ++ s.acts }

unfoldable pub append_entries : Startup → Tray → List MenuEntry → Started → Started
unfolding checked win_err
append_entries s t [] done = done
append_entries s t (e ∷ es) done =
    let rest = append_entries s t es done in
    checked (s.append_menu e) t (λ _. doing (entry_appended e ∷ []) rest)

-- The last lines: the marks of the menu, and the tip of the icon.
unfoldable pub show_first : Startup → Tray → Started
show_first s t =
    let (t', calls) = apply_state t in
    record { tray = t'; acts = map called (apply_menu_checks s.answers ++ calls); error = none }

unfoldable pub with_menu : Startup → Tray → ℕ → Started
unfolding append_entries show_first required_menu_entries
with_menu s t menu =
    let t' = record t { menu = menu } in
    doing (menu_made menu ∷ []) (append_entries s t' required_menu_entries (show_first s t'))

unfoldable pub make_menu : Startup → Tray → Started
unfolding checked with_menu
make_menu s t = checked s.create_menu t (with_menu s t)

-- The errors of `createIcon` on bytes that are no icon; an index behind their end does not occur.
unfoldable pub refusal : Option Image → OsError
refusal (some Image.invalid) = codes "invalid embedded ICO"
refusal (some Image.truncated) = codes "truncated embedded ICO"
refusal (some Image.outside) = codes "ICO image is outside file"
refusal _ = []

icon_call : ℕ × CallError → ℕ × CallError
icon_call (handle, e) = (handle, os_error (codes "CreateIconFromResourceEx: " ++ win_err e))

unfoldable pub with_icon : Startup → Tray → ℕ → Started
unfolding make_menu
with_icon s t icon = doing (icon_made icon ∷ []) (make_menu s (record t { icon = icon }))

-- `createIcon`, and what follows.
unfoldable pub make_icon : Startup → Tray → Option Image → Started
unfolding checked with_icon icon_call refusal
make_icon s t (some (image bytes)) =
    checked (icon_call (s.create_icon_handle bytes)) t (with_icon s t)
make_icon s t other = record { tray = t; acts = []; error = some (icon_refused (refusal other)) }

unfoldable pub read_icon : Startup → Tray → Result OsError Bytes → Started
unfolding make_icon int32_result
read_icon s t (err e) = record { tray = t; acts = []; error = some (call_failed e) }
read_icon s t (ok bytes) =
    make_icon s t (create_icon bytes (int32_result s.icon_width) (int32_result s.icon_height))

unfoldable pub with_message : Startup → Tray → ℕ → Started
unfolding read_icon
with_message s t msg = read_icon s (record t { taskbar_created = msg }) s.icon_file

unfoldable pub with_window : Startup → Tray → ℕ → Started
unfolding checked with_message
with_window s t window =
    let t' = record t { window = window } in
    doing (window_made window ∷ []) (checked s.taskbar_message t' (with_message s t'))

unfoldable pub with_class : Startup → Tray → ℕ → Started
unfolding checked with_window
with_class s t _ = doing (class_registered ∷ []) (checked s.create_window t (with_window s t))

unfoldable pub with_instance : Startup → Tray → ℕ → Started
unfolding checked with_class
with_instance s t _ = checked s.register_class t (with_class s t)

-- `initialize`
unfoldable pub initialize : Startup → Tray → Started
unfolding checked with_instance
initialize s t = checked s.module_handle t (with_instance s t)

-- How `GetMessageW` ends the loop: with 0, or with -1 and an error.
pub data LoopEnd : Type 0 where
  quit_message : LoopEnd
  message_failed : CallError → LoopEnd

unfoldable pub loop_error : LoopEnd → Option RunError
loop_error quit_message = none
loop_error (message_failed e) = some (call_failed (win_err e))

unfoldable pub error_text : RunError → OsError
error_text already_active = codes "tray already active"
error_text (call_failed e) = e
error_text (icon_refused e) = e

-- The deferred `close`.
unfoldable pub closing : Tray → List Act → Option RunError → Started
closing t acts e =
    let (t', calls) = close t in record { tray = t'; acts = acts ++ map called calls; error = e }

-- With the icon, the messages until the loop ends; without it, its error.
unfoldable pub behind_icon : Startup → List Event → LoopEnd → Bool → Tray × List Call → Started
unfolding closing loop_error win_err
behind_icon s events end' true (t, calls) =
    let (t', more) = Runs.run events t in
    closing t' (map called calls ++ map called more) (loop_error end')
behind_icon s events end' false (t, calls) =
    closing t (map called calls ++ map called (fatal_shown (win_err s.icon_error) ∷ []))
      (some (call_failed (win_err s.icon_error)))

unfoldable pub run_loop : Startup → List Event → LoopEnd → Tray → Started
unfolding behind_icon
run_loop s events end' t = behind_icon s events end' s.answers.icon_accepted (add_icon s.answers t)

unfoldable pub after_initialize :
    Startup → List Event → LoopEnd → Started → Option RunError → Started
unfolding run_loop error_text
after_initialize s events end' started none =
    doing started.acts (run_loop s events end' started.tray)
after_initialize s events end' started (some e) = doing started.acts (record {
  tray = started.tray;
  acts = called (fatal_shown (error_text e)) ∷ [];
  error = some e;
})

-- `Run`, with whether a tray is active before and after it.
unfoldable pub run : Startup → List Event → LoopEnd → Bool → Tray → Bool × Started
unfolding initialize after_initialize
run s events end' true t = (true, record { tray = t; acts = []; error = some already_active })
run s events end' false t =
    let started = initialize s t in (false, after_initialize s events end' started started.error)
