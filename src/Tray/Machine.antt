-- ===== src/Tray/Machine.antt =====
-- internal/tray/tray_windows.go: the state of `Tray`, its methods and `windowProc`. A method returns
-- the calls of Windows and of the other packages that it makes, in order.
pub mod Runs
pub mod Handles
use omni_sshagent.Base.{
  ℕ, zero, suc, ◌+◌, ◌%◌, Bool, true, false, not, ◌&&◌, ◌||◌, List, [], ◌∷◌, ◌++◌, Option, none,
  some, is_none, ◌==◌, if◌then◌else◌, Result, ok, err,
}
use omni_sshagent.Base.Text.{Text, codes}
use omni_sshagent.Files.{OsError}
use omni_sshagent.App.{State, running, degraded, configuration_error, tooltip}
use omni_sshagent.Config.File.{BooleanSetting, pageant_setting, cygwin_setting, BooleanSettings}

-- Handles are numbers, and 0 is none. The mutex and the paths are left out.
pub record Tray : Type 0 where
  pub state : State
  pub window : ℕ
  pub icon : ℕ
  pub menu : ℕ
  pub taskbar_created : ℕ
  pub added : Bool
  pub shutting_down : Bool

abbrev pub wm_destroy : ℕ
wm_destroy = 0x0002

abbrev pub wm_close : ℕ
wm_close = 0x0010

abbrev pub wm_command : ℕ
wm_command = 0x0111

abbrev pub wm_left_button_up : ℕ
wm_left_button_up = 0x0202

abbrev pub wm_right_button_up : ℕ
wm_right_button_up = 0x0205

abbrev pub wm_tray : ℕ
wm_tray = 0x0401

abbrev pub wm_apply : ℕ
wm_apply = 0x0402

-- The entries of the menu, from 1002 to 1009.
abbrev pub menu_open_config : ℕ
menu_open_config = 1002

abbrev pub menu_open_config_dir : ℕ
menu_open_config_dir = 1003

abbrev pub menu_open_log_dir : ℕ
menu_open_log_dir = 1004

abbrev pub menu_settings : ℕ
menu_settings = 1005

abbrev pub menu_pageant : ℕ
menu_pageant = 1006

abbrev pub menu_cygwin : ℕ
menu_cygwin = 1007

abbrev pub menu_auto_start : ℕ
menu_auto_start = 1008

abbrev pub menu_quit : ℕ
menu_quit = 1009

pub data Call : Type 0 where
  post_message : ℕ → Call
  -- `nimAdd`, with whether it succeeded.
  icon_added : Bool → Call
  icon_modified icon_deleted : Call
  menu_destroyed window_destroyed icon_destroyed : ℕ → Call
  tip_set : Text → Call
  status_label : Text → Call
  menu_checked : ℕ → Bool → Call
  menu_shown : Call
  default_created configuration_opened configuration_dir_opened log_dir_opened : Call
  settings_opened : Call
  setting_toggled : BooleanSetting → Call
  auto_start_set : Bool → Call
  fatal_shown : OsError → Call
  quit_requested : Call
  quit_posted : Call
  default_procedure : Call

-- What the other packages and Windows answer.
pub record Answers : Type 0 where
  pub create_default : Option OsError
  pub toggle : Option OsError
  pub settings : Option BooleanSettings
  pub auto_start : Result OsError Bool
  pub set_auto_start : Option OsError
  pub icon_accepted : Bool
  pub cursor_known : Bool
  pub has_on_quit : Bool

abbrev pub Method : Type 0
Method = Tray → Tray × List Call

unfoldable pub new_tray : Tray
new_tray = record {
  state = degraded;
  window = 0;
  icon = 0;
  menu = 0;
  taskbar_created = 0;
  added = false;
  shutting_down = false;
}

-- `PostMessageW`, where there is a window.
abbrev pub posted : ℕ → ℕ → List Call
posted window msg = if window == 0 then [] else post_message msg ∷ []

unfoldable pub set_state : State → Method
set_state s t =
    if t.shutting_down then (t, []) else (record t { state = s }, posted t.window wm_apply)

unfoldable pub quit : Method
quit t =
    if t.shutting_down
    then (t, [])
    else (record t { shutting_down = true }, posted t.window wm_close)

unfoldable pub add_icon : Answers → Method
add_icon a t =
    (if a.icon_accepted then record t { added = true } else t, icon_added a.icon_accepted ∷ [])

unfoldable pub state_label : State → Text
state_label running = codes "Running"
state_label configuration_error = codes "Configuration error"
state_label degraded = codes "Degraded"

unfoldable pub apply_state : Method
unfolding state_label
apply_state t = (
  t,
  tip_set (tooltip t.state)
      ∷ ((if t.added then icon_modified ∷ [] else [])
          ++ status_label (codes "Status: " ++ state_label t.state) ∷ []),
)

setting_checks : Option BooleanSettings → List Call
setting_checks none = []
setting_checks (some s) =
    menu_checked menu_pageant s.pageant_enabled ∷ menu_checked menu_cygwin s.cygwin_enabled ∷ []

auto_start_checks : Result OsError Bool → List Call
auto_start_checks (ok enabled) = menu_checked menu_auto_start enabled ∷ []
auto_start_checks (err e) = []

unfoldable pub apply_menu_checks : Answers → List Call
unfolding setting_checks auto_start_checks
apply_menu_checks a = setting_checks a.settings ++ auto_start_checks a.auto_start

show_menu : Answers → List Call
unfolding apply_menu_checks
show_menu a = apply_menu_checks a ++ (if a.cursor_known then menu_shown ∷ [] else [])

toggle_config_setting : BooleanSetting → Answers → List Call
unfolding apply_menu_checks
toggle_config_setting setting a = default_created ∷ elim a.create_default [
  | some e ↦ fatal_shown e ∷ []
  | none ↦
      setting_toggled setting
      ∷ elim a.toggle [ some e ↦ fatal_shown e ∷ [] | none ↦ apply_menu_checks a ]
]

toggle_auto_start : Answers → List Call
unfolding apply_menu_checks
toggle_auto_start a = elim a.auto_start [
  | err e ↦ fatal_shown e ∷ []
  | ok enabled ↦
      auto_start_set (not enabled)
      ∷ elim a.set_auto_start [ some e ↦ fatal_shown e ∷ [] | none ↦ apply_menu_checks a ]
]

entry : ℕ → Answers → List Call
unfolding toggle_config_setting toggle_auto_start
entry id a =
    if id == menu_open_config
    then default_created ∷ configuration_opened ∷ []
    else if id == menu_open_config_dir
    then configuration_dir_opened ∷ []
    else if id == menu_open_log_dir
    then log_dir_opened ∷ []
    else if id == menu_settings
    then settings_opened ∷ []
    else if id == menu_pageant
    then toggle_config_setting pageant_setting a
    else if id == menu_cygwin
    then toggle_config_setting cygwin_setting a
    else if id == menu_auto_start
    then toggle_auto_start a
    else if id == menu_quit && a.has_on_quit
    then quit_requested ∷ []
    else []

unfoldable pub command : ℕ → Answers → Method
unfolding entry
command id a t = if t.shutting_down then (t, []) else (t, entry id a)

close_icon : Method
close_icon t = if t.added then (record t { added = false }, icon_deleted ∷ []) else (t, [])

-- The three handles, each destroyed once.
close_handles : Method
close_handles t = (
  record t { menu = 0; window = 0; icon = 0 },
  (if t.menu == 0 then [] else menu_destroyed t.menu ∷ [])
      ++ ((if t.window == 0 then [] else window_destroyed t.window ∷ [])
          ++ (if t.icon == 0 then [] else icon_destroyed t.icon ∷ [])),
)

unfoldable pub close : Method
unfolding close_icon close_handles
close t =
    let (t', calls) = close_icon t in let (t'', more) = close_handles t' in (t'', calls ++ more)

destroyed : Method
unfolding close_icon
destroyed t =
    let (t', calls) = close_icon t in (record t' { window = 0 }, calls ++ quit_posted ∷ [])

-- `DestroyWindow` in `close` sends `WM_DESTROY` to `windowProc` before it returns; here that message
-- is an event of its own. `windowProc` while this tray is active; `wparam` and `lparam` as the source reads them.
unfoldable pub window_proc : ℕ → ℕ → ℕ → Answers → Method
unfolding add_icon show_menu command apply_state destroyed
window_proc msg wparam lparam a t =
    if msg == t.taskbar_created && not (msg == 0)
    then add_icon a (record t { added = false })
    else if msg == wm_tray
    then (let low = lparam % 4294967296 in
        (t, if low == wm_left_button_up || low == wm_right_button_up then show_menu a else []))
    else if msg == wm_command
    then command (wparam % 65536) a t
    else if msg == wm_apply
    then apply_state t
    else if msg == wm_destroy
    then destroyed t
    else (t, default_procedure ∷ [])
