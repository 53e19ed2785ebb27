-- ===== src/Tray/Machine/Handles.antt =====
-- The handles that the methods and messages of the tray of internal/tray/tray_windows.go destroy.
use omni_sshagent.Base.{
  ℕ, Bool, true, false, List, [], ◌∷◌, ◌++◌, ◌==◌, ◌||◌, ◌%◌, ◌≡◌, ◌⊎◌, refl, ap, ◌∙◌, arith,
  if◌then◌else◌, All,
}
use omni_sshagent.Config.File.{BooleanSetting, pageant_setting, cygwin_setting}
use omni_sshagent.Tray.Machine.{
  Tray, Call, menu_destroyed, window_destroyed, icon_destroyed, quit_posted, Answers, add_icon,
  apply_state, apply_menu_checks, close, close_icon, close_handles, window_proc, command, entry,
  show_menu, toggle_config_setting, toggle_auto_start, destroyed, set_state, quit,
}
use omni_sshagent.Tray.Machine.Runs.{Event, state_set, quitting, adding, closing, message, step}
use omni_sshagent.Tray.Machine.Runs

pub data Handle : Type 0 where
  window icon menu : ℕ → Handle

-- The handles that calls destroy, in their order.
abbrev pub destroyed_by : List Call → List Handle
destroyed_by [] = []
destroyed_by (menu_destroyed n ∷ calls) = menu n ∷ destroyed_by calls
destroyed_by (window_destroyed n ∷ calls) = window n ∷ destroyed_by calls
destroyed_by (icon_destroyed n ∷ calls) = icon n ∷ destroyed_by calls
destroyed_by (_ ∷ calls) = destroyed_by calls

-- Whether `WM_DESTROY` has been answered, which Windows sends when the window goes.
abbrev pub has_quit : List Call → Bool
has_quit [] = false
has_quit (quit_posted ∷ calls) = true
has_quit (_ ∷ calls) = has_quit calls

-- The messages, and the calls of other goroutines, while the loop runs.
abbrev pub IsArriving : Event → Type 0
IsArriving (adding a) = ⊥
IsArriving closing = ⊥
IsArriving (state_set s) = Unit
IsArriving quitting = Unit
IsArriving (message m w l a) = Unit

-- One event keeps menu and icon, destroys nothing by itself, and loses the window only where
-- `WM_DESTROY` is answered.
pub record Keeps (t u : Tray) (calls : List Call) : Type 0 where
  pub menu_same : u.menu ≡ t.menu
  pub icon_same : u.icon ≡ t.icon
  pub destroys_nothing : destroyed_by calls ≡ []
  pub window_same : (u.window ≡ t.window) ⊎ ((u.window ≡ 0) × (has_quit calls ≡ true))

pub apply_menu_checks-destroys : (a : Answers) → destroyed_by (apply_menu_checks a) ≡ []
unfolding apply_menu_checks
apply_menu_checks-destroys a = ground arith

show_menu-destroys : (a : Answers) → destroyed_by (show_menu a) ≡ []
unfolding show_menu
show_menu-destroys a = ground arith

toggle_config_setting-destroys :
    (s : BooleanSetting) (a : Answers) → destroyed_by (toggle_config_setting s a) ≡ []
unfolding toggle_config_setting
toggle_config_setting-destroys s a = ground arith

toggle_auto_start-destroys : (a : Answers) → destroyed_by (toggle_auto_start a) ≡ []
unfolding toggle_auto_start
toggle_auto_start-destroys a = ground arith

entry-destroys : (id : ℕ) (a : Answers) → destroyed_by (entry id a) ≡ []
unfolding entry
entry-destroys id a = ground (
  arith,
  toggle_config_setting-destroys pageant_setting a,
  toggle_config_setting-destroys cygwin_setting a,
  toggle_auto_start-destroys a,
)

command-Keeps : (id : ℕ) (a : Answers) (t : Tray) → Keeps t (command id a t).0 (command id a t).1
unfolding command
command-Keeps id a t = ground (arith, entry-destroys id a)

destroyed-Keeps : (t : Tray) → Keeps t (destroyed t).0 (destroyed t).1
unfolding destroyed close_icon
destroyed-Keeps t = ground arith

pub apply_state-Keeps : (t : Tray) → Keeps t (apply_state t).0 (apply_state t).1
unfolding apply_state
apply_state-Keeps t = ground arith

pub add_icon-Keeps : (a : Answers) (t : Tray) → Keeps t (add_icon a t).0 (add_icon a t).1
unfolding add_icon
add_icon-Keeps a t = ground arith

window_proc-Keeps :
    (msg wparam lparam : ℕ) (a : Answers) (t : Tray)
    → Keeps t (window_proc msg wparam lparam a t).0 (window_proc msg wparam lparam a t).1
unfolding window_proc add_icon
window_proc-Keeps msg wparam lparam a t = ground (
  arith,
  show_menu-destroys a,
  command-Keeps (wparam % 65536) a t,
  apply_state-Keeps t,
  destroyed-Keeps t,
)

step-Keeps : (e : Event) (t : Tray) → IsArriving e → Keeps t (step e t).0 (step e t).1
unfolding step set_state quit
step-Keeps (state_set s) t h = ground arith
step-Keeps quitting t h = ground arith
step-Keeps (adding a) t h = absurd h
step-Keeps closing t h = absurd h
step-Keeps (message msg wparam lparam a) t h = window_proc-Keeps msg wparam lparam a t

pub destroyed_by-append :
    (l m : List Call) → destroyed_by (l ++ m) ≡ destroyed_by l ++ destroyed_by m
destroyed_by-append [] m = refl
destroyed_by-append (menu_destroyed n ∷ l) m = ap (λ k. menu n ∷ k) (destroyed_by-append l m)
destroyed_by-append (window_destroyed n ∷ l) m = ap (λ k. window n ∷ k) (destroyed_by-append l m)
destroyed_by-append (icon_destroyed n ∷ l) m = ap (λ k. icon n ∷ k) (destroyed_by-append l m)
destroyed_by-append (_ ∷ l) m = destroyed_by-append l m

pub has_quit-append : (l m : List Call) → has_quit (l ++ m) ≡ (has_quit l || has_quit m)
has_quit-append [] m = refl
has_quit-append (quit_posted ∷ l) m = refl
has_quit-append (_ ∷ l) m = has_quit-append l m

pub Keeps-append : {t u v : Tray} {l m : List Call} → Keeps t u l → Keeps u v m → Keeps t v (l ++ m)
Keeps-append {t} {u} {v} {l} {m} one rest = record {
  menu_same = rest.menu_same ∙ one.menu_same;
  icon_same = rest.icon_same ∙ one.icon_same;
  destroys_nothing =
      destroyed_by-append l m ∙ rw (one.destroys_nothing, rest.destroys_nothing) refl;
  window_same = ground (arith, has_quit-append l m, one.window_same, rest.window_same);
}

-- The menu and the icon outlive every message, and only `WM_DESTROY` takes the window.
pub run-Keeps :
    (es : List Event) (t : Tray) → All IsArriving es → Keeps t (Runs.run es t).0 (Runs.run es t).1
unfolding Runs.run
run-Keeps [] t h = ground arith
run-Keeps (e ∷ es) t h = Keeps-append (step-Keeps e t h.0) (run-Keeps es (step e t).0 h.1)

-- `close` destroys what is there, each once.
pub close-destroys :
    (t : Tray)
    → (destroyed_by (close t).1
        ≡ (if t.menu == 0 then [] else menu t.menu ∷ [])
          ++ ((if t.window == 0 then [] else window t.window ∷ [])
              ++ (if t.icon == 0 then [] else icon t.icon ∷ [])))
      × (has_quit (close t).1 ≡ false)
unfolding close close_icon close_handles
close-destroys t = ground arith
