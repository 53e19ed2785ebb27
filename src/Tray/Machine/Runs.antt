-- ===== src/Tray/Machine/Runs.antt =====
-- What holds of the tray of internal/tray/tray_windows.go over every sequence of its methods and of
-- the messages to its window.
use omni_sshagent.Base.{
  ℕ, suc, ◌+◌, ◌≤◌, Bool, true, false, List, [], ◌∷◌, ◌++◌, ◌==◌, if◌then◌else◌, ◌≡◌, arith, ◌%◌,
  ◌∙◌,
}
use omni_sshagent.App.{State}
use omni_sshagent.Config.File.{BooleanSetting, pageant_setting, cygwin_setting}
use omni_sshagent.Tray.Machine.{
  Tray, Call, post_message, icon_added, icon_deleted, Answers, Method, set_state, quit, add_icon,
  close, command, apply_state, window_proc, wm_close, show_menu, entry, apply_menu_checks,
  toggle_config_setting, toggle_auto_start, destroyed, close_icon, close_handles,
}

-- A call of a method, or a message to the window.
pub data Event : Type 0 where
  state_set : State → Event
  quitting : Event
  adding : Answers → Event
  closing : Event
  message : ℕ → ℕ → ℕ → Answers → Event

unfoldable pub step : Event → Method
step (state_set s) t = set_state s t
step quitting t = quit t
step (adding a) t = add_icon a t
step closing t = close t
step (message msg wparam lparam a) t = window_proc msg wparam lparam a t

unfoldable pub run : List Event → Method
run [] t = (t, [])
run (e ∷ es) t = let (t', calls) = step e t in let (t'', more) = run es t' in (t'', calls ++ more)

-- How often `WM_CLOSE` was posted.
abbrev pub close_posts : List Call → ℕ
close_posts [] = 0
close_posts (post_message m ∷ calls) = (if m == wm_close then 1 else 0) + close_posts calls
close_posts (_ ∷ calls) = close_posts calls

-- How often the icon was put into the notification area, and taken out.
abbrev pub icons_added : List Call → ℕ
icons_added [] = 0
icons_added (icon_added true ∷ calls) = suc (icons_added calls)
icons_added (_ ∷ calls) = icons_added calls

abbrev pub icons_deleted : List Call → ℕ
icons_deleted [] = 0
icons_deleted (icon_deleted ∷ calls) = suc (icons_deleted calls)
icons_deleted (_ ∷ calls) = icons_deleted calls

abbrev pub flag : Bool → ℕ
flag true = 1
flag false = 0

close_posts-append : (l m : List Call) → close_posts (l ++ m) ≡ close_posts l + close_posts m
close_posts-append [] m = omega arith
close_posts-append (post_message n ∷ l) m = omega (arith, close_posts-append l m)
close_posts-append (_ ∷ l) m = close_posts-append l m

icons_added-append : (l m : List Call) → icons_added (l ++ m) ≡ icons_added l + icons_added m
icons_added-append [] m = omega arith
icons_added-append (icon_added true ∷ l) m = omega (arith, icons_added-append l m)
icons_added-append (icon_added false ∷ l) m = icons_added-append l m
icons_added-append (_ ∷ l) m = icons_added-append l m

icons_deleted-append :
    (l m : List Call) → icons_deleted (l ++ m) ≡ icons_deleted l + icons_deleted m
icons_deleted-append [] m = omega arith
icons_deleted-append (icon_deleted ∷ l) m = omega (arith, icons_deleted-append l m)
icons_deleted-append (_ ∷ l) m = icons_deleted-append l m

-- Calls that concern neither the close message nor the icon.
abbrev IsQuiet : List Call → Type 0
IsQuiet calls = (close_posts calls ≡ 0) × (icons_added calls ≡ 0) × (icons_deleted calls ≡ 0)

apply_menu_checks-IsQuiet : (a : Answers) → IsQuiet (apply_menu_checks a)
unfolding apply_menu_checks
apply_menu_checks-IsQuiet a = ground arith

show_menu-IsQuiet : (a : Answers) → IsQuiet (show_menu a)
unfolding show_menu
show_menu-IsQuiet a = ground arith

toggle_config_setting-IsQuiet :
    (s : BooleanSetting) (a : Answers) → IsQuiet (toggle_config_setting s a)
unfolding toggle_config_setting
toggle_config_setting-IsQuiet s a = ground arith

toggle_auto_start-IsQuiet : (a : Answers) → IsQuiet (toggle_auto_start a)
unfolding toggle_auto_start
toggle_auto_start-IsQuiet a = ground arith

entry-IsQuiet : (id : ℕ) (a : Answers) → IsQuiet (entry id a)
unfolding entry
entry-IsQuiet id a = ground (
  arith,
  toggle_config_setting-IsQuiet pageant_setting a,
  toggle_config_setting-IsQuiet cygwin_setting a,
  toggle_auto_start-IsQuiet a,
)

command-IsQuiet : (id : ℕ) (a : Answers) (t : Tray) → IsQuiet (command id a t).1
unfolding command
command-IsQuiet id a t = ground (arith, entry-IsQuiet id a)

command-same : (id : ℕ) (a : Answers) (t : Tray) → (command id a t).0 ≡ t
unfolding command
command-same id a t = ground arith

-- One event: the close message goes out at most once, as `shuttingDown` is set, and the icon is
-- taken out only where it was put.
record Ledger (t u : Tray) (calls : List Call) : Type 0 where
  closes : close_posts calls + flag t.shutting_down ≤ flag u.shutting_down
  icons : icons_deleted calls + flag u.added ≤ icons_added calls + flag t.added
  frozen : t.shutting_down ≡ true → u.state ≡ t.state

close-Ledger : (t : Tray) → Ledger t (close t).0 (close t).1
unfolding close close_icon close_handles
close-Ledger t = ground arith

destroyed-Ledger : (t : Tray) → Ledger t (destroyed t).0 (destroyed t).1
unfolding destroyed close_icon
destroyed-Ledger t = ground arith

add_icon-Ledger : (a : Answers) (t : Tray) → Ledger t (add_icon a t).0 (add_icon a t).1
unfolding add_icon
add_icon-Ledger a t = ground arith

apply_state-Ledger : (t : Tray) → Ledger t (apply_state t).0 (apply_state t).1
unfolding apply_state
apply_state-Ledger t = ground arith

command-Ledger : (id : ℕ) (a : Answers) (t : Tray) → Ledger t (command id a t).0 (command id a t).1
command-Ledger id a t = rw (command-same id a t) (ground (arith, command-IsQuiet id a t))

taskbar-Ledger :
    (a : Answers) (t : Tray)
    → Ledger t
        (add_icon a (record t { added = false })).0
        (add_icon a (record t { added = false })).1
unfolding add_icon
taskbar-Ledger a t = ground arith

window_proc-Ledger :
    (msg wparam lparam : ℕ) (a : Answers) (t : Tray)
    → Ledger t (window_proc msg wparam lparam a t).0 (window_proc msg wparam lparam a t).1
unfolding window_proc
window_proc-Ledger msg wparam lparam a t = ground (
  arith,
  taskbar-Ledger a t,
  show_menu-IsQuiet a,
  command-Ledger (wparam % 65536) a t,
  apply_state-Ledger t,
  destroyed-Ledger t,
)

step-Ledger : (e : Event) (t : Tray) → Ledger t (step e t).0 (step e t).1
unfolding step set_state quit
step-Ledger (state_set s) t = ground arith
step-Ledger quitting t = ground arith
step-Ledger (adding a) t = add_icon-Ledger a t
step-Ledger closing t = close-Ledger t
step-Ledger (message msg wparam lparam a) t = window_proc-Ledger msg wparam lparam a t

run-Ledger : (es : List Event) (t : Tray) → Ledger t (run es t).0 (run es t).1
unfolding run
run-Ledger [] t = ground arith
run-Ledger (e ∷ es) t =
    let one = step-Ledger e t in
    let rest = run-Ledger es (step e t).0 in
    let closes = close_posts-append (step e t).1 (run es (step e t).0).1 in
    let adds = icons_added-append (step e t).1 (run es (step e t).0).1 in
    let deletes = icons_deleted-append (step e t).1 (run es (step e t).0).1 in
    record {
      closes = omega (arith, one.closes, rest.closes, closes);
      icons = omega (arith, one.icons, rest.icons, adds, deletes);
      frozen = λ h. rest.frozen (stays (step e t).0 one.closes h) ∙ one.frozen h;
    }
  where
    stays :
        (u : Tray)
        → close_posts (step e t).1 + flag t.shutting_down ≤ flag u.shutting_down
        → t.shutting_down ≡ true
        → u.shutting_down ≡ true
    stays u l h = ground arith

-- Over every sequence of events the tray asks its window to close at most once, not at all if it
-- is shutting down already, and whenever it has asked, it is shutting down in the end.
pub run-close_posts :
    (es : List Event) (t : Tray)
    → close_posts (run es t).1 + flag t.shutting_down ≤ flag (run es t).0.shutting_down
run-close_posts es t = (run-Ledger es t).closes

-- Once the tray is shutting down, no sequence of events changes the state that it shows.
pub run_frozen :
    (es : List Event) (t : Tray) → t.shutting_down ≡ true → (run es t).0.state ≡ t.state
run_frozen es t = (run-Ledger es t).frozen

-- Over every sequence of events, restarts of the taskbar included, the icon is taken out at most
-- as often as it was put in, counting the one that stood there before; if it stands there in the
-- end, that one is not counted as taken out.
pub run-icons :
    (es : List Event) (t : Tray)
    → icons_deleted (run es t).1 + flag (run es t).0.added ≤ icons_added (run es t).1 + flag t.added
run-icons es t = (run-Ledger es t).icons

-- `close` gives back the icon, the menu, the window and the icon's image, each if it is there, and
-- a second `close` makes no call.
pub close_twice :
    (t : Tray)
    → ((close t).0.added ≡ false)
      × ((close t).0.menu ≡ 0)
      × ((close t).0.window ≡ 0)
      × ((close t).0.icon ≡ 0)
      × (close (close t).0 ≡ ((close t).0, []))
unfolding close close_icon close_handles
close_twice t = ground arith
