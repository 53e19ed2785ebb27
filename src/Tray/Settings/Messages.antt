-- ===== src/Tray/Settings/Messages.antt =====
-- internal/tray/settings_windows.go: `settingsWindowProc` and `browseSocket`, from the moment that
-- the settings dialog stands. What the user enters is an event of its own beside the messages, and
-- the dialog of the keys, which changes nothing here, is left out.
pub mod Kept
use omni_sshagent.Base.{
  ℕ, ◌+◌, Bool, true, false, List, [], ◌∷◌, Option, none, some, ℤ, if◌then◌else◌,
}
use omni_sshagent.Base.Text.{Text, codes, is_empty, trim_space}
use omni_sshagent.Files.{OsError, FileSystem}
use omni_sshagent.Config.{Platform}
use omni_sshagent.Config.File.{Codec}
use omni_sshagent.Tray.Settings.{apply}
use omni_sshagent.Tray.Settings.Controls.{Controls, update_backend_controls, values}

-- `Dir`, `Base` and `Join` of package filepath.
pub record Paths : Type 0 where
  pub dir : Text → Text
  pub base : Text → Text
  pub join : Text → Text → Text

-- `pickOpenFile`, from the directory and the name that it starts with.
abbrev pub Picker : Type 0
Picker = Text → Text → Option Text

-- The directory and the name that `browseSocket` starts with, from the profile and the edit.
unfoldable pub browse_start : Paths → Text → Text → Text × Text
browse_start paths profile socket =
    let current = trim_space socket in
    let name = codes "omnisshagent-cygwin.sock" in
    if is_empty current
    then (if is_empty profile then (profile, name) else (paths.join profile (codes ".ssh"), name))
    else (paths.dir current, paths.base current)

abbrev pub picked : Controls → Option Text → Controls
picked c none = c
picked c (some file) = record c { socket = file }

unfoldable pub browse_socket : Paths → Text → Picker → Controls → Controls
unfolding browse_start
browse_socket paths profile pick c =
    let (dir, name) = browse_start paths profile c.socket in picked c (pick dir name)

-- The messages, with the error of `SetEnabled`; or the user changes what the dialog shows but the
-- type of the backend. Selecting that sends a message.
pub data Event : Type 0 where
  ok_clicked apply_clicked : Option OsError → Event
  cancelled wm_close wm_destroy : Event
  browse_clicked : Picker → Event
  backend_selected : ℤ → Event
  edited : Controls → Event

-- What the user cannot change stays.
abbrev pub entered : Controls → Controls → Controls
entered new c = record new {
  backend_type = c.backend_type;
  edits_enabled = c.edits_enabled;
  has_note = c.has_note;
}

module _ (fs : FileSystem) (codec : Codec) (path : Text) (platform : Platform) (paths : Paths)
    (user_profile : Text) where
  open fs use {World}

  -- `errors` is the number of errors that `apply` has shown.
  pub record Dialog : Type 0 where
    pub controls : Controls
    pub is_open : Bool
    pub errors : ℕ
    pub world : World

  -- `apply`, which shows an error wherever it fails; `stay` tells whether it leaves a window open
  -- on which it has succeeded.
  unfoldable pub apply_values : Option OsError → Bool → Dialog → Dialog
  apply_values auto_start_error stay d =
      let (w, done) =
        apply fs codec path platform user_profile (values d.controls) auto_start_error d.world in
      if done
      then record d { world = w; is_open = stay }
      else record d { world = w; errors = d.errors + 1 }

  -- `settingsWindowProc` of a window that is open. Closing it destroys it, which sends `wmDestroy`.
  unfoldable pub window_proc : Event → Dialog → Dialog
  unfolding apply_values browse_socket
  window_proc (ok_clicked e) d = apply_values e false d
  window_proc (apply_clicked e) d = apply_values e true d
  window_proc cancelled d = record d { is_open = false }
  window_proc wm_close d = record d { is_open = false }
  window_proc wm_destroy d = record d { is_open = false }
  window_proc (browse_clicked pick) d = record d {
    controls = browse_socket paths user_profile pick d.controls;
  }
  window_proc (backend_selected i) d = record d {
    controls = update_backend_controls (record d.controls { backend_type = i });
  }
  window_proc (edited new) d = record d { controls = entered new d.controls }

  -- Behind `wmDestroy` no dialog is left for the messages.
  unfoldable pub handle : Event → Dialog → Dialog
  unfolding window_proc
  handle e d = if d.is_open then window_proc e d else d

  unfoldable pub run : List Event → Dialog → Dialog
  unfolding handle
  run [] d = d
  run (e ∷ es) d = run es (handle e d)
