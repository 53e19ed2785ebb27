-- ===== src/Config.antt =====
-- internal/config/config.go: the configuration, `Default` and `Validate`.
pub mod Laws
pub mod File
use omni_sshagent.Base.{
  ℕ, ◌*◌, Bool, true, false, not, ◌&&◌, ◌||◌, List, [], ◌∷◌, ◌++◌, Option, none, some,
  if◌then◌else◌, Result, ok, err, ◌>>=◌, ℤ, pos, int_eq, is_positive,
}
use omni_sshagent.Base.Text.{
  Text, codes, equal, is_empty, trim_space, has_prefix, contains_any, to_lower,
}

pub record Config : Type 0 where
  pub version : ℤ
  pub backend_type : Text
  pub backend_pipe : Text
  pub backend_connect_timeout : Text
  pub pageant_enabled : Bool
  pub cygwin_enabled : Bool
  pub cygwin_socket_path : Text
  pub show_sign_notifications : Bool
  pub logging_level : Text

-- `slog.Level`
pub data Level : Type 0 where
  level_debug level_info level_warn level_error : Level

-- A `time.Duration`, in nanoseconds.
abbrev pub Duration : Type 0
Duration = ℤ

pub record RuntimeConfig : Type 0 where
  pub config_path : Text
  pub log_directory : Text
  pub backend_type : Text
  pub backend_pipe_path : Text
  pub connect_timeout : Duration
  pub cygwin_path : Text
  pub pageant_enabled : Bool
  pub cygwin_enabled : Bool
  pub show_sign_notifications : Bool
  pub log_level : Level

pub data ValidationError : Type 0 where
  unsupported_version : ℤ → ValidationError
  pipe_empty pipe_not_a_name timeout_not_positive : ValidationError
  unsupported_backend : Text → ValidationError
  user_profile_unavailable socket_path_not_absolute unknown_level : ValidationError

abbrev pub schema_version : ℤ
schema_version = pos 1

abbrev pub backend_windows_openssh : Text
backend_windows_openssh = codes "windows-openssh"

abbrev pub backend_embedded : Text
backend_embedded = codes "embedded"

abbrev pub pipe_prefix : Text
pipe_prefix = codes "\\\\.\\pipe\\"

-- 5 seconds
abbrev pub default_connect_timeout : Duration
default_connect_timeout = pos 5000000000

unfoldable pub default_config : Config
default_config = record {
  version = schema_version;
  backend_type = backend_windows_openssh;
  backend_pipe = codes "openssh-ssh-agent";
  backend_connect_timeout = codes "5s";
  pageant_enabled = true;
  cygwin_enabled = true;
  cygwin_socket_path = [];
  show_sign_notifications = false;
  logging_level = codes "info";
}

-- What `Validate` takes from the platform: the case table above ASCII, `time.ParseDuration`, and
-- `IsAbs`, `Clean` and `Join` of package filepath.
pub record Platform : Type 0 where
  pub lower_other : ℕ → ℕ
  pub parse_duration : Text → Option Duration
  pub is_abs : Text → Bool
  pub clean : Text → Text
  pub join : List Text → Text

module _ (platform : Platform) where
  open platform use {lower_other, parse_duration, is_abs, clean, join}

  -- The case `BackendWindowsOpenSSH`, up to the timeout.
  unfoldable pub pipe_path : Text → Result ValidationError Text
  pipe_path text =
      let pipe = trim_space text in
      if is_empty pipe
      then err pipe_empty
      else if has_prefix (to_lower lower_other pipe) pipe_prefix
      then ok pipe
      else if contains_any pipe (codes "\\/")
      then err pipe_not_a_name
      else ok (pipe_prefix ++ pipe)

  timeout_of : Option Duration → Result ValidationError Duration
  timeout_of none = err timeout_not_positive
  timeout_of (some d) = if is_positive d then ok d else err timeout_not_positive

  -- The `switch` on the backend's type: the pipe and the timeout.
  unfoldable pub backend_settings : Config → Result ValidationError (Text × Duration)
  unfolding timeout_of
  backend_settings cfg =
      if equal cfg.backend_type backend_windows_openssh
      then (do
        pipe ← pipe_path cfg.backend_pipe
        timeout ← timeout_of (parse_duration cfg.backend_connect_timeout)
        ok (pipe, timeout))
      else if equal cfg.backend_type backend_embedded
      then ok ([], default_connect_timeout)
      else err (unsupported_backend cfg.backend_type)

  unfoldable pub socket_path : Text → Text → Result ValidationError Text
  socket_path path user_profile =
      if is_empty path
      then if is_empty user_profile
        then err user_profile_unavailable
        else ok (join (user_profile ∷ codes ".ssh" ∷ codes "omnisshagent-cygwin.sock" ∷ []))
      else if not (is_abs path)
      then err socket_path_not_absolute
      else ok path

  unfoldable pub parse_level : Text → Result ValidationError Level
  parse_level text =
      let level = to_lower lower_other text in
      if equal level (codes "debug")
      then ok level_debug
      else if equal level (codes "info")
      then ok level_info
      else if equal level (codes "warn")
      then ok level_warn
      else if equal level (codes "error")
      then ok level_error
      else err unknown_level

  unfoldable pub validate : Config → Text → Text → Text → Result ValidationError RuntimeConfig
  validate cfg config_path log_directory user_profile =
      if not (int_eq cfg.version schema_version) then err (unsupported_version cfg.version) else (do
        (pipe, timeout) ← backend_settings cfg
        path ← socket_path cfg.cygwin_socket_path user_profile
        level ← parse_level cfg.logging_level
        ok (record {
          config_path = config_path;
          log_directory = log_directory;
          backend_type = cfg.backend_type;
          backend_pipe_path = pipe;
          connect_timeout = timeout;
          cygwin_path = clean path;
          pageant_enabled = cfg.pageant_enabled;
          cygwin_enabled = cfg.cygwin_enabled;
          show_sign_notifications = cfg.show_sign_notifications;
          log_level = level;
        }))
