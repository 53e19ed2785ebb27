-- ===== src/Tray/Settings/Controls.antt =====
-- internal/tray/settings_windows.go: what `load` puts into the controls of the settings dialog, and
-- what `values` reads from them. The index of a combo box is negative if nothing is selected; the
-- calls of user32.dll behind the controls succeed.
use omni_sshagent.Base.{
  ℕ, ◌+◌, Bool, true, false, not, ◌&&◌, List, [], ◌∷◌, Option, none, some, Result, ok, err,
  get_elem?, ℤ, pos, negsuc, if◌then◌else◌, ◌≡◌, ◌⊎◌, inl, inr, refl,
}
use omni_sshagent.Base.Text.{Text, codes, equal, is_empty, to_lower, contains}
use omni_sshagent.Config.{
  Config, RuntimeConfig, Platform, backend_windows_openssh, backend_embedded, validate,
}
use omni_sshagent.Config.Laws.{validate-accepted}
use omni_sshagent.Tray.Settings.{Values}

abbrev pub backend_options : List Text
backend_options = backend_windows_openssh ∷ backend_embedded ∷ []

abbrev pub log_levels : List Text
log_levels = codes "debug" ∷ codes "info" ∷ codes "warn" ∷ codes "error" ∷ []

-- The loops over the options: the first that matches, or `default`.
unfoldable pub index_from : ℕ → ℕ → Text → List Text → ℕ
index_from i default text [] = default
index_from i default text (option ∷ options) =
    let rest = index_from (i + 1) default text options in if equal option text then i else rest

abbrev pub option_or : Text → Option Text → Text
option_or default none = default
option_or default (some text) = text

-- The option of a selection, or the default if there is none.
unfoldable pub selected : Text → List Text → ℤ → Text
selected default options (negsuc n) = default
selected default options (pos i) = option_or default (get_elem? options i)

pub record Controls : Type 0 where
  pub pageant : Bool
  pub cygwin : Bool
  pub socket : Text
  pub backend_type : ℤ
  pub pipe : Text
  pub timeout : Text
  pub edits_enabled : Bool
  pub has_note : Bool
  pub log_level : ℤ
  pub auto_start : Bool

-- A selection that is none, or out of range, is not the embedded backend.
unfoldable pub is_embedded : ℤ → Bool
unfolding selected
is_embedded i = equal (selected [] backend_options i) backend_embedded

unfoldable pub update_backend_controls : Controls → Controls
unfolding is_embedded
update_backend_controls c = record c {
  edits_enabled = not (is_embedded c.backend_type);
  has_note = is_embedded c.backend_type;
}

-- `setWindowText`: a text with a NUL leaves the control as it is.
abbrev pub set_text : Text → Text → Text
set_text new old = if contains new 0 then old else new

-- `join_socket` is the path of the default socket under the profile.
unfoldable pub shown_socket : (Text → Text) → Text → Text → Text
shown_socket join_socket profile socket =
    if is_empty socket && not (is_empty profile) then join_socket profile else socket

module _ (platform : Platform) (join_socket : Text → Text) (profile : Text) where
  -- The part of `load` from the configuration to the level of the log.
  unfoldable pub load_config : Config → Controls → Controls
  unfolding update_backend_controls shown_socket index_from
  load_config cfg c =
      let shown = update_backend_controls (record c {
        pageant = cfg.pageant_enabled;
        cygwin = cfg.cygwin_enabled;
        socket = set_text (shown_socket join_socket profile cfg.cygwin_socket_path) c.socket;
        backend_type = pos (index_from 0 0 cfg.backend_type backend_options);
        pipe = set_text cfg.backend_pipe c.pipe;
        timeout = set_text cfg.backend_connect_timeout c.timeout;
      }) in
      record shown {
        log_level =
            pos (index_from 0 1 (to_lower platform.lower_other cfg.logging_level) log_levels);
      }

  -- `load`, with the results of `Load` and of `autoStartEnabled`; the second is whether it failed.
  unfoldable pub load_controls :
      {E : Type 0} → Result E Config → Option Bool → Controls → Controls × Bool
  unfolding load_config
  load_controls (err e) auto c = (c, true)
  load_controls (ok cfg) none c = (load_config cfg c, true)
  load_controls (ok cfg) (some enabled) c =
      (record (load_config cfg c) { auto_start = enabled }, false)

-- `values`, without the flag of the autostart.
unfoldable pub values : Controls → Values
unfolding selected
values c = record {
  pageant_enabled = c.pageant;
  cygwin_enabled = c.cygwin;
  socket_path = c.socket;
  backend_type = selected backend_windows_openssh backend_options c.backend_type;
  pipe = c.pipe;
  connect_timeout = c.timeout;
  log_level = selected (codes "info") log_levels c.log_level;
}

edits_of :
    (t : Text)
    → (t ≡ backend_windows_openssh) ⊎ (t ≡ backend_embedded)
    → let i = pos (index_from 0 0 t backend_options) in
      (not (is_embedded i) ≡ equal t backend_windows_openssh)
      × (is_embedded i ≡ equal t backend_embedded)
unfolding is_embedded selected index_from equal
edits_of t (inl e) = rw (e) (refl, refl)
edits_of t (inr e) = rw (e) (refl, refl)

module _ (platform : Platform) (join_socket : Text → Text) (profile : Text) where
  known_backend :
      (cfg : Config) (path logs user_profile : Text) {r : RuntimeConfig}
      → validate platform cfg path logs user_profile ≡ ok r
      → (cfg.backend_type ≡ backend_windows_openssh) ⊎ (cfg.backend_type ≡ backend_embedded)
  known_backend cfg path logs user_profile h =
      elim (validate-accepted platform cfg path logs user_profile h).1 [
        | inl p ↦ inl (p.0)
        | inr p ↦ inr (p.0)
      ]

  abbrev with_texts : Config → Text → Text → Values
  with_texts cfg backend level = record {
    pageant_enabled = cfg.pageant_enabled;
    cygwin_enabled = cfg.cygwin_enabled;
    socket_path = shown_socket join_socket profile cfg.cygwin_socket_path;
    backend_type = backend;
    pipe = cfg.backend_pipe;
    connect_timeout = cfg.backend_connect_timeout;
    log_level = level;
  }

  -- The controls of the pipe can be edited, and the note is hidden, exactly if the configuration
  -- names the OpenSSH backend.
  pub load_config-edits :
      (cfg : Config) (path logs user_profile : Text) (c : Controls) {r : RuntimeConfig}
      → validate platform cfg path logs user_profile ≡ ok r
      → ((load_config platform join_socket profile cfg c).edits_enabled
          ≡ equal cfg.backend_type backend_windows_openssh)
        × ((load_config platform join_socket profile cfg c).has_note
            ≡ equal cfg.backend_type backend_embedded)
  unfolding load_config update_backend_controls
  load_config-edits cfg path logs user_profile c h =
      edits_of cfg.backend_type (known_backend cfg path logs user_profile h)
