-- ===== src/Tray/Settings.antt =====
-- internal/tray/settings_windows.go: `mergeSettings`, `validateSettings` and `apply` of the settings
-- dialog. What the dialog shows is an argument, and so is the error of `SetEnabled`.
pub mod Controls
pub mod Messages
use omni_sshagent.Base.{
  Bool, true, false, [], Option, none, some, is_none, Result, ok, err, ◌≡◌, ◌⊎◌, inl, inr, refl,
  Option-cases,
}
use omni_sshagent.Base.Text.{Text, trim_space, to_lower}
use omni_sshagent.Files.{OsError, FileSystem, IsLawful, content}
use omni_sshagent.Config.{Config, RuntimeConfig, ValidationError, Platform, validate}
use omni_sshagent.Config.File.{Codec, IsInverse, FileError, load, save, create_default}
use omni_sshagent.Config.File.Write.{IsTarget}
use omni_sshagent.Config.File.Toggle.{Saved, save-Saved}

-- `settingsValues`
pub record Values : Type 0 where
  pub pageant_enabled : Bool
  pub cygwin_enabled : Bool
  pub socket_path : Text
  pub backend_type : Text
  pub pipe : Text
  pub connect_timeout : Text
  pub log_level : Text

unfoldable pub merge_settings : Platform → Config → Values → Config
merge_settings platform cfg v = record cfg {
  pageant_enabled = v.pageant_enabled;
  cygwin_enabled = v.cygwin_enabled;
  cygwin_socket_path = trim_space v.socket_path;
  backend_type = trim_space v.backend_type;
  backend_pipe = trim_space v.pipe;
  backend_connect_timeout = trim_space v.connect_timeout;
  logging_level = to_lower platform.lower_other (trim_space v.log_level);
}

module _ (fs : FileSystem) (codec : Codec) (path : Text) (platform : Platform) (user_profile : Text)
    (values : Values) (auto_start_error : Option OsError) where
  open fs use {World}

  -- Each helper is the rest of `apply` from one call on; the flag is its result.
  after_save : World × Option FileError → World × Bool
  after_save (w, some x) = (w, false)
  after_save (w, none) = (w, is_none auto_start_error)

  save_valid : Config → Result ValidationError RuntimeConfig → World → World × Bool
  unfolding after_save
  save_valid cfg (err x) w = (w, false)
  save_valid cfg (ok r) w = after_save (save fs codec path cfg w)

  merge_loaded : Result FileError Config → World → World × Bool
  unfolding save_valid
  merge_loaded (err x) w = (w, false)
  merge_loaded (ok cfg) w =
      let new = merge_settings platform cfg values in
      save_valid new (validate platform new path [] user_profile) w

  load_created : World × Result FileError Bool → World × Bool
  unfolding merge_loaded
  load_created (w, err x) = (w, false)
  load_created (w, ok _) = merge_loaded (load fs codec path w) w

  unfoldable pub apply : World → World × Bool
  unfolding load_created
  apply w = load_created (create_default fs codec path w)

module _ (platform : Platform) (values : Values) where
  -- The configuration has the values of the dialog, and all else as it was.
  pub record IsMerged (cfg new : Config) : Type 0 where
    pub version : new.version ≡ cfg.version
    pub backend_type : new.backend_type ≡ trim_space values.backend_type
    pub backend_pipe : new.backend_pipe ≡ trim_space values.pipe
    pub timeout : new.backend_connect_timeout ≡ trim_space values.connect_timeout
    pub pageant : new.pageant_enabled ≡ values.pageant_enabled
    pub cygwin : new.cygwin_enabled ≡ values.cygwin_enabled
    pub socket : new.cygwin_socket_path ≡ trim_space values.socket_path
    pub notifications : new.show_sign_notifications ≡ cfg.show_sign_notifications
    pub level : new.logging_level ≡ to_lower platform.lower_other (trim_space values.log_level)

  merge_settings-IsMerged : (cfg : Config) → IsMerged cfg (merge_settings platform cfg values)
  unfolding merge_settings
  merge_settings-IsMerged cfg = record {
    version = refl;
    backend_type = refl;
    backend_pipe = refl;
    timeout = refl;
    pageant = refl;
    cygwin = refl;
    socket = refl;
    notifications = refl;
    level = refl;
  }

module _ (fs : FileSystem) (laws : IsLawful fs) (codec : Codec) (inverse : IsInverse codec)
    (path : Text) (target : IsTarget fs path) (platform : Platform) (user_profile : Text)
    (values : Values) (auto_start_error : Option OsError) where
  open fs use {World}

  -- The file holds a valid configuration with the values of the dialog.
  abbrev pub Merged : World → World → Type 0
  Merged w w' =
      (cfg : Config) × (new : Config) × (r : RuntimeConfig) × (load fs codec path w ≡ ok cfg)
      × IsMerged platform values cfg new
      × (validate platform new path [] user_profile ≡ ok r)
      × (load fs codec path w' ≡ ok new)

  -- After `apply`, where `w` is the state behind `CreateDefault`.
  abbrev pub Applied : World → World × Bool → Type 0
  Applied w (w', true) = (auto_start_error ≡ none) × Merged w w'
  Applied w (w', false) = (content fs path w' ≡ content fs path w) ⊎ Merged w w'

  after_save-Applied :
      (w : World) (s : World × Option FileError) (cfg : Config) (r : RuntimeConfig)
      → load fs codec path w ≡ ok cfg
      → validate platform (merge_settings platform cfg values) path [] user_profile ≡ ok r
      → Saved fs laws codec inverse path target (merge_settings platform cfg values) w s
      → Applied w (after_save fs codec path platform user_profile values auto_start_error s)
  unfolding after_save
  after_save-Applied w (w', some x) cfg r l v kept = inl kept
  after_save-Applied w (w', none) cfg r l v new = elim (Option-cases auto_start_error) [
    | inl e ↦ rw e (refl, (cfg, _, r, l, merge_settings-IsMerged platform values cfg, v, new))
    | inr (x, e) ↦ rw e (inr (cfg, _, r, l, merge_settings-IsMerged platform values cfg, v, new))
  ]

  save_valid-Applied :
      (w : World) (cfg : Config) (r : Result ValidationError RuntimeConfig)
      → load fs codec path w ≡ ok cfg
      → validate platform (merge_settings platform cfg values) path [] user_profile ≡ r
      → Applied w (
          save_valid fs codec path platform user_profile values auto_start_error
            (merge_settings platform cfg values)
            r
            w)
  unfolding save_valid
  save_valid-Applied w cfg (err x) l v = inl refl
  save_valid-Applied w cfg (ok r) l v =
      after_save-Applied w _ cfg r l v
        (save-Saved fs laws codec inverse path target (merge_settings platform cfg values) w)

  merge_loaded-Applied :
      (w : World) (r : Result FileError Config)
      → load fs codec path w ≡ r
      → Applied w (merge_loaded fs codec path platform user_profile values auto_start_error r w)
  unfolding merge_loaded
  merge_loaded-Applied w (err x) l = inl refl
  merge_loaded-Applied w (ok cfg) l = save_valid-Applied w cfg _ l refl

  load_created-Applied :
      (s : World × Result FileError Bool)
      → Applied s.0 (load_created fs codec path platform user_profile values auto_start_error s)
  unfolding load_created
  load_created-Applied (w, err x) = inl refl
  load_created-Applied (w, ok _) = merge_loaded-Applied w _ refl

  -- `apply` succeeds only if the sign-in could be set, and then the next load of the file gives the
  -- configuration that was there behind `CreateDefault`, with the values of the dialog, which
  -- `Validate` accepts. If it fails, the content of the file is that behind `CreateDefault`, or just
  -- such a configuration.
  pub apply-Applied :
      (w : World)
      → Applied
          (create_default fs codec path w).0
          (apply fs codec path platform user_profile values auto_start_error w)
  unfolding apply
  apply-Applied w = load_created-Applied (create_default fs codec path w)
