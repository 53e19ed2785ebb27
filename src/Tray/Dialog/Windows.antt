-- ===== src/Tray/Dialog/Windows.antt =====
-- internal/tray/dialog_windows.go, settings_windows.go and keys_windows.go: how the windows of the
-- dialogs are made. The calls of Windows are parameters; styles and fonts are left out.
pub mod Layout
pub mod Released
use omni_sshagent.Base.{
  ℕ, ◌+◌, ◌-◌, Bool, true, false, not, ◌||◌, ◌&&◌, List, [], ◌∷◌, ◌++◌, Option, none, some, is_some,
  ◌==◌, if◌then◌else◌,
}
use omni_sshagent.Base.Text.{Text, codes, is_empty}
use omni_sshagent.Tray.Dialog.{scaled}

-- What `createChild` is given: the class, the title, the place and the identifier.
pub record Control : Type 0 where
  pub class : Text
  pub title : Text
  pub x : ℕ
  pub y : ℕ
  pub w : ℕ
  pub h : ℕ
  pub id : ℕ

pub data Registered : Type 0 where
  registered class_exists refused : Registered

-- What Windows answers; a handle of 0 is a failure. `encodes` tells whether a text has no NUL.
pub record Screen : Type 0 where
  pub dpi : ℕ
  pub module_handle : ℕ
  pub encodes : Text → Bool
  pub register_class : Text → Registered
  pub popup : Text → ℕ × ℕ → ℕ
  pub child : Control → ℕ

pub data Act : Type 0 where
  popup_made popup_destroyed : ℕ → Act
  child_made : Control → Act
  owner_enabled : Bool → Act
  error_shown : Act
  brought_to_front : Act

-- `registerDialogClass`: whether the class is there.
unfoldable pub register_dialog_class : Screen → Text → Bool
register_dialog_class s class =
    if s.module_handle == 0 || not (s.encodes class)
    then false
    else elim (s.register_class class) [ registered ↦ true | class_exists ↦ true | refused ↦ false ]

-- `createPopup`, with the width and the height of the window.
unfoldable pub create_popup : Screen → Text → Text → ℕ × ℕ → Option ℕ
unfolding register_dialog_class
create_popup s class title size =
    if not (register_dialog_class s class) || not (s.encodes title) || s.popup class size == 0
    then none
    else some (s.popup class size)

-- `createChild`: whether there is a control. An empty title is not encoded.
unfoldable pub create_child : Screen → Control → Bool
create_child s c =
    not (s.module_handle == 0)
    && s.encodes c.class
    && (is_empty c.title || s.encodes c.title)
    && not (s.child c == 0)

-- The controls one after the other, up to the first that cannot be made.
unfoldable pub create_controls : Screen → List Control → List Act × Bool
unfolding create_child
create_controls s [] = ([], true)
create_controls s (c ∷ cs) =
    let (acts, done) = create_controls s cs in
    if create_child s c then (child_made c ∷ acts, done) else ([], false)

-- A window with its controls, and `load` behind them: where one of them fails, the window is
-- destroyed.
unfoldable pub create_dialog :
    Screen → Text → Text → ℕ × ℕ → List Control → Bool → List Act × Option ℕ
unfolding create_popup create_controls
create_dialog s class title size controls loaded = elim (create_popup s class title size) [
  | none ↦ ([], none)
  | some window ↦
      (let (acts, done) = create_controls s controls in
        if done && loaded
        then (popup_made window ∷ acts, some window)
        else (popup_made window ∷ (acts ++ popup_destroyed window ∷ []), none))
]

-- How `runModal` ends: the window is gone, `WM_QUIT` has come, or `GetMessageW` fails.
pub data ModalEnd : Type 0 where
  window_gone quit_received message_failed : ModalEnd

-- `runModal`. In the first case the window procedure has destroyed the window.
abbrev ended : ℕ → ModalEnd → List Act
ended window window_gone = popup_destroyed window ∷ []
ended window quit_received = popup_destroyed window ∷ []
ended window message_failed = []

unfoldable pub run_modal : ℕ → ℕ → ModalEnd → List Act
run_modal owner window end' =
    let body = ended window end' in
    if owner == 0 then body else owner_enabled false ∷ (body ++ owner_enabled true ∷ [])

unfoldable pub show_dialog : ℕ → ModalEnd → List Act × Option ℕ → List Act
unfolding run_modal
show_dialog owner end' (acts, none) = acts ++ error_shown ∷ []
show_dialog owner end' (acts, some window) = acts ++ run_modal owner window end'

-- The arguments of `child` in the order of the source, without styles.
abbrev pub control : Text → Text → ℕ → ℕ → ℕ → ℕ → ℕ → Control
control class title x y w h id = record {
  class = class;
  title = title;
  x = x;
  y = y;
  w = w;
  h = h;
  id = id;
}

-- What the three callers of `createPopup` give it.
unfoldable pub settings_size : ℕ → ℕ × ℕ
unfolding scaled
settings_size dpi = (scaled dpi 492, scaled dpi 546)

unfoldable pub keys_size : ℕ → ℕ × ℕ
unfolding scaled
keys_size dpi = (scaled dpi 492, scaled dpi 360)

unfoldable pub password_size : ℕ → ℕ × ℕ
unfolding scaled
password_size dpi = (scaled dpi 380, scaled dpi 168)

-- The controls of `settingsDialog.createControls`; the options of its two lists are left out, and
-- sums and differences are those of ℕ: they stay within the window wherever the products fit in 31 bits.
unfoldable pub settings_controls : ℕ → List Control
unfolding scaled
settings_controls dpi =
    let pad = scaled dpi 12 in
    let label_w = scaled dpi 92 in
    let edit_h = scaled dpi 23 in
    let btn_w = scaled dpi 88 in
    let btn_h = scaled dpi 24 in
    let inner_x = pad + scaled dpi 10 in
    let inner_w = scaled dpi 448 in
    let edit_x = inner_x + label_w in
    let edit_w = inner_w - label_w - scaled dpi 96 in
    let top = pad in
    let backend_top = top + scaled dpi 118 + scaled dpi 10 in
    let app_top = backend_top + scaled dpi 174 + scaled dpi 10 in
    let button_y = app_top + scaled dpi 96 + scaled dpi 12 in
    control (codes "Button") (codes "Compatibility") pad top (scaled dpi 468) (scaled dpi 118) 2101
    ∷ control (codes "Button") (codes "Enable Pageant interface") inner_x (top + scaled dpi 22)
        inner_w edit_h 2102
    ∷ control (codes "Button") (codes "Enable Cygwin/MSYS2 interface") inner_x (top + scaled dpi 46)
        inner_w edit_h 2103
    ∷ control (codes "Static") (codes "Socket path:") inner_x (top + scaled dpi 78) label_w edit_h
        2104
    ∷ control (codes "Edit") [] edit_x (top + scaled dpi 74) edit_w edit_h 2105
    ∷ control (codes "Button") (codes "Browse...") (edit_x + edit_w + scaled dpi 8)
        (top + scaled dpi 74) (scaled dpi 84) btn_h 2106
    ∷ control (codes "Button") (codes "Backend") pad backend_top (scaled dpi 468) (scaled dpi 174)
        2107
    ∷ control (codes "Static") (codes "Type:") inner_x (backend_top + scaled dpi 24) label_w edit_h
        0
    ∷ control (codes "ComboBox") [] edit_x (backend_top + scaled dpi 20) (scaled dpi 220)
        (scaled dpi 100) 2119
    ∷ control (codes "Static") (codes "Named pipe:") inner_x (backend_top + scaled dpi 52) label_w
        edit_h 2108
    ∷ control (codes "Edit") [] edit_x (backend_top + scaled dpi 48) (inner_w - label_w) edit_h 2109
    ∷ control (codes "Static") (codes "Timeout:") inner_x (backend_top + scaled dpi 80) label_w
        edit_h 2110
    ∷ control (codes "Edit") [] edit_x (backend_top + scaled dpi 76) (scaled dpi 80) edit_h 2111
    ∷ control (codes "Static") [] inner_x (backend_top + scaled dpi 108) inner_w (scaled dpi 54)
        2120
    ∷ control (codes "Button") (codes "Application") pad app_top (scaled dpi 468) (scaled dpi 96)
        2112
    ∷ control (codes "Button") (codes "Start with Windows") inner_x (app_top + scaled dpi 22)
        inner_w edit_h 2113
    ∷ control (codes "Static") (codes "Log level:") inner_x (app_top + scaled dpi 50) label_w edit_h
        2114
    ∷ control (codes "ComboBox") [] edit_x (app_top + scaled dpi 46) (scaled dpi 120)
        (scaled dpi 140) 2115
    ∷ control (codes "Static") (codes "Interface and backend changes apply after restart.") inner_x
        (app_top + scaled dpi 74) inner_w edit_h 2116
    ∷ control (codes "Button") (codes "Manage keys...") pad button_y (scaled dpi 120) btn_h 2117
    ∷ control (codes "Button") (codes "OK") (scaled dpi 216) button_y btn_w btn_h 1
    ∷ control (codes "Button") (codes "Cancel") (scaled dpi 310) button_y btn_w btn_h 2
    ∷ control (codes "Button") (codes "Apply") (scaled dpi 404) button_y btn_w btn_h 2118
    ∷ []

-- The controls of `keysDialog.create`.
unfoldable pub keys_controls : ℕ → List Control
unfolding scaled
keys_controls dpi =
    let pad = scaled dpi 12 in
    let btn_w = scaled dpi 88 in
    let btn_h = scaled dpi 24 in
    let list_h = scaled dpi 240 in
    let button_y = pad + list_h + scaled dpi 12 in
    control (codes "ListBox") [] pad pad (scaled dpi 468) list_h 2201
    ∷ control (codes "Button") (codes "Add...") pad button_y btn_w btn_h 2202
    ∷ control (codes "Button") (codes "Remove") (pad + btn_w + scaled dpi 8) button_y btn_w btn_h
        2203
    ∷ control (codes "Button") (codes "Close") (scaled dpi 392) button_y btn_w btn_h 2
    ∷ []

-- The controls of `promptPassphrase` for the key with this name.
unfoldable pub password_controls : ℕ → Text → List Control
unfolding scaled
password_controls dpi name =
    let pad = scaled dpi 12 in
    let button_y = scaled dpi 92 in
    control (codes "Static") (codes "Enter the passphrase for " ++ name ++ codes ".") pad pad
      (scaled dpi 348) (scaled dpi 36) 0
    ∷ control (codes "Edit") [] pad (scaled dpi 52) (scaled dpi 348) (scaled dpi 23) 2204
    ∷ control (codes "Button") (codes "OK") (scaled dpi 176) button_y (scaled dpi 88)
        (scaled dpi 24) 1
    ∷ control (codes "Button") (codes "Cancel") (scaled dpi 272) button_y (scaled dpi 88)
        (scaled dpi 24) 2
    ∷ []

-- `openSettings`: a dialog that is open comes to the front; `default_made` tells of
-- `createDefaultConfig`, and `loaded` of `load`.
unfoldable pub open_settings : Screen → ℕ → Bool → Bool → Bool → ModalEnd → List Act
unfolding create_dialog show_dialog settings_controls settings_size
open_settings s owner is_open default_made loaded end' =
    if is_open
    then brought_to_front ∷ []
    else if not default_made
    then error_shown ∷ []
    else show_dialog owner end' (
        create_dialog s (codes "OmniSSHAgentSettingsWindow") (codes "OmniSSHAgent Settings")
          (settings_size s.dpi) (settings_controls s.dpi) loaded)

-- `openKeys`, with whether there is a backend; an error of `refresh` is shown, and the dialog stays.
unfoldable pub open_keys : Screen → ℕ → Bool → Bool → Bool → ModalEnd → List Act
unfolding create_dialog show_dialog keys_controls keys_size
open_keys s owner is_open has_backend refreshed end' =
    if is_open
    then brought_to_front ∷ []
    else if not has_backend
    then error_shown ∷ []
    else (let (acts, window) =
          create_dialog s (codes "OmniSSHAgentKeysWindow") (codes "Manage keys") (keys_size s.dpi)
            (keys_controls s.dpi) true in
        show_dialog owner end'
          (acts ++ (if is_some window && not refreshed then error_shown ∷ [] else []), window))

-- `promptPassphrase` shows an error only where there is no window at all.
unfoldable pub show_password : ℕ → ModalEnd → List Act × Option ℕ → List Act
unfolding run_modal
show_password owner end' ([], none) = error_shown ∷ []
show_password owner end' (a ∷ acts, none) = a ∷ acts
show_password owner end' (acts, some window) = acts ++ run_modal owner window end'

-- What `promptPassphrase` does with its window.
unfoldable pub open_password : Screen → ℕ → Text → ModalEnd → List Act
unfolding create_dialog show_password password_controls password_size
open_password s owner name end' = show_password owner end' (
    create_dialog s (codes "OmniSSHAgentPasswordWindow") (codes "Passphrase") (password_size s.dpi)
      (password_controls s.dpi name) true)
