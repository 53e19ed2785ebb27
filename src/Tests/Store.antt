-- ===== src/Tests/Store.antt =====
-- The configuration file of internal/config on a disk in memory. `memory_codec` stands for TOML; it
-- encodes the two flags of a configuration whose other fields have their default entered.
use omni_sshagent.Base.{
  ℕ, Bool, true, false, ◌&&◌, not, List, [], ◌∷◌, none, some, ◌≡◌, ◌⊎◌, inl, inr, refl, arith,
  Result, ok, err, if◌then◌else◌, ◌==◌, Bool-cases, int_eq, int_eq_iff, pos, is_positive, negsuc,
  ◌++◌,
}
use omni_sshagent.Base.Text.{
  Text, codes, equal, equal_iff, trim_space, has_prefix, to_lower, contains_any,
}
use omni_sshagent.Files.{OsError, Bytes, content}
use omni_sshagent.Files.Memory.{memory, memory-IsLawful, Disk}
use omni_sshagent.Config.{
  Config, RuntimeConfig, Platform, validate, pipe_path, backend_settings, socket_path, parse_level,
  backend_embedded, default_connect_timeout, level_info, backend_windows_openssh,
}
use omni_sshagent.Tray.Settings.Controls.{
  Controls, load_config, update_backend_controls, is_embedded,
}
use omni_sshagent.Tray.Settings.Messages.{
  Paths, Dialog, Event, ok_clicked, apply_clicked, browse_clicked, backend_selected, edited, run,
}
use omni_sshagent.Tray.Settings.Messages.Kept.{IsKept, run-IsKept}
use omni_sshagent.Tray.Settings.{Values, Applied, apply, apply-Applied}
use omni_sshagent.Config.Laws.{IsPipePath, validate-accepted}
use omni_sshagent.Config.File.{
  Codec, IsInverse, load, cygwin_setting, write_file, toggle_boolean_setting, create_default,
}
use omni_sshagent.Config.File.Write.{Replaced, IsTarget, write_file-Replaced}
use omni_sshagent.Config.File.Toggle.{Toggled, toggle-Toggled}

abbrev byte : Bool → ℕ
byte true = 1
byte false = 0

abbrev standard : Bool → Bool → Config
standard p c = record {
  version = pos 1;
  backend_type = codes "windows-openssh";
  backend_pipe = codes "openssh-ssh-agent";
  backend_connect_timeout = codes "5s";
  pageant_enabled = p;
  cygwin_enabled = c;
  cygwin_socket_path = [];
  show_sign_notifications = false;
  logging_level = codes "info";
}

abbrev is_standard : Config → Bool
is_standard cfg =
    int_eq cfg.version (pos 1)
    && equal cfg.backend_type (codes "windows-openssh")
    && equal cfg.backend_pipe (codes "openssh-ssh-agent")
    && equal cfg.backend_connect_timeout (codes "5s")
    && equal cfg.cygwin_socket_path []
    && not cfg.show_sign_notifications
    && equal cfg.logging_level (codes "info")

abbrev is_one : ℕ → Bool
is_one n = n == 1

abbrev decode : Bytes → Result OsError Config
decode (p ∷ c ∷ []) = ok (standard (is_one p) (is_one c))
decode _ = err (codes "syntax error")

abbrev marshal : Config → Result OsError Bytes
marshal cfg =
    if is_standard cfg
    then ok (byte cfg.pageant_enabled ∷ byte cfg.cygwin_enabled ∷ [])
    else err (codes "not encoded")

abbrev memory_codec : Codec
memory_codec = record { decode = decode; marshal = marshal }

is_standard-standard :
    (cfg : Config) → is_standard cfg ≡ true → cfg ≡ standard cfg.pageant_enabled cfg.cygwin_enabled
is_standard-standard cfg h = ground (
  arith,
  int_eq_iff cfg.version (pos 1),
  equal_iff cfg.backend_type (codes "windows-openssh"),
  equal_iff cfg.backend_pipe (codes "openssh-ssh-agent"),
  equal_iff cfg.backend_connect_timeout (codes "5s"),
  equal_iff cfg.cygwin_socket_path [],
  equal_iff cfg.logging_level (codes "info"),
)

decode_bytes : (p c : Bool) → decode (byte p ∷ byte c ∷ []) ≡ ok (standard p c)
decode_bytes true true = refl
decode_bytes true false = refl
decode_bytes false true = refl
decode_bytes false false = refl

memory_codec-IsInverse : IsInverse memory_codec
memory_codec-IsInverse cfg b h = elim (Bool-cases (is_standard cfg)) [
  | inl same ↦ ground (
    arith,
    is_standard-standard cfg same,
    decode_bytes cfg.pageant_enabled cfg.cygwin_enabled,
    same,
  )
  | inr other ↦ absurd (ground (arith, other))
]

abbrev config_file : Text
config_file = codes "C:\\c.toml"

temporary_IsTarget : IsTarget memory config_file
temporary_IsTarget d pattern w h = absurd (ground (arith, h))

-- A disk with a configuration, and an empty one.
abbrev disk : Disk
disk p = if equal p config_file then some (1 ∷ 0 ∷ []) else none

abbrev blank : Disk
blank p = none

write_file-Replaced_example :
    Replaced memory config_file
      (content memory config_file disk)
      (some (0 ∷ 0 ∷ []))
      (write_file memory config_file (0 ∷ 0 ∷ []) disk)
write_file-Replaced_example =
    write_file-Replaced memory memory-IsLawful config_file temporary_IsTarget (0 ∷ 0 ∷ []) disk

toggle-Toggled_example :
    Toggled memory memory-IsLawful memory_codec memory_codec-IsInverse config_file
      temporary_IsTarget cygwin_setting disk
      (toggle_boolean_setting memory memory_codec config_file cygwin_setting disk)
toggle-Toggled_example =
    toggle-Toggled memory memory-IsLawful memory_codec memory_codec-IsInverse config_file
      temporary_IsTarget cygwin_setting disk

-- `time.ParseDuration` and package filepath, as far as these examples need them.
abbrev platform : Platform
platform = record {
  lower_other = λ c. c;
  parse_duration = λ t. if equal t (codes "5s") then some (pos 5000000000) else none;
  is_abs = λ p. true;
  clean = λ p. p;
  join = λ ps. [];
}

abbrev accepted : RuntimeConfig
accepted = record {
  config_path = config_file;
  log_directory = codes "C:\\log";
  backend_type = backend_windows_openssh;
  backend_pipe_path = codes "\\\\.\\pipe\\openssh-ssh-agent";
  connect_timeout = pos 5000000000;
  cygwin_path = codes "C:\\u\\x";
  pageant_enabled = true;
  cygwin_enabled = true;
  show_sign_notifications = false;
  log_level = level_info;
}

abbrev with_path : Config
with_path = record (standard true true) { cygwin_socket_path = codes "C:\\u\\x" }

validate_run :
    validate platform with_path config_file (codes "C:\\log") (codes "C:\\u") ≡ ok accepted
unfolding validate backend_settings equal pipe_path trim_space has_prefix to_lower contains_any
    socket_path parse_level
validate_run = refl

validate-accepted_example :
    (with_path.version ≡ pos 1)
    × (((with_path.backend_type ≡ backend_windows_openssh)
          × IsPipePath platform accepted.backend_pipe_path
          × (platform.parse_duration with_path.backend_connect_timeout
              ≡ some accepted.connect_timeout))
        ⊎ ((with_path.backend_type ≡ backend_embedded)
            × (accepted.backend_pipe_path ≡ [])
            × (accepted.connect_timeout ≡ default_connect_timeout)))
    × (is_positive accepted.connect_timeout ≡ true)
    × (accepted.backend_type ≡ with_path.backend_type)
    × (accepted.pageant_enabled ≡ with_path.pageant_enabled)
    × (accepted.cygwin_enabled ≡ with_path.cygwin_enabled)
validate-accepted_example =
    validate-accepted platform with_path config_file (codes "C:\\log") (codes "C:\\u")
      {r = accepted} validate_run

abbrev entered : Values
entered = record {
  pageant_enabled = false;
  cygwin_enabled = false;
  socket_path = [];
  backend_type = codes " windows-openssh";
  pipe = codes "openssh-ssh-agent ";
  connect_timeout = codes "5s";
  log_level = codes "Info";
}

apply-Applied_example :
    Applied memory memory-IsLawful memory_codec memory_codec-IsInverse config_file
      temporary_IsTarget platform
      (codes "C:")
      entered
      none
      (create_default memory memory_codec config_file blank).0
      (apply memory memory_codec config_file platform (codes "C:") entered none blank)
apply-Applied_example =
    apply-Applied memory memory-IsLawful memory_codec memory_codec-IsInverse config_file
      temporary_IsTarget platform (codes "C:") entered none blank

abbrev controls : Controls
controls = record {
  pageant = false;
  cygwin = false;
  socket = [];
  backend_type = negsuc 0;
  pipe = [];
  timeout = [];
  edits_enabled = false;
  has_note = false;
  log_level = negsuc 0;
  auto_start = false;
}

abbrev under : Text → Text
under profile = profile ++ codes "\\s"

-- The dialog over `disk`, as `load` fills it, and a user who enters a path and clicks.
abbrev stored : Config
stored = standard true false

abbrev stored_accepted : RuntimeConfig
stored_accepted = record accepted { log_directory = []; cygwin_path = []; cygwin_enabled = false }

stored_validates : validate platform stored config_file [] (codes "C:") ≡ ok stored_accepted
unfolding validate backend_settings equal pipe_path trim_space has_prefix to_lower contains_any
    socket_path parse_level
stored_validates = refl

abbrev paths : Paths
paths = record { dir = λ t. t; base = λ t. t; join = λ p t. p ++ codes "\\" ++ t }

abbrev opened : Dialog memory memory_codec config_file platform paths (codes "C:")
opened = record {
  controls = load_config platform under (codes "C:") stored controls;
  is_open = true;
  errors = 0;
  world = disk;
}

abbrev events : List Event
events =
    backend_selected (pos 1)
    ∷ apply_clicked none
    ∷ backend_selected (pos 0)
    ∷ browse_clicked (λ dir name. some [])
    ∷ edited (record controls {
      pageant = false;
      pipe = codes "openssh-ssh-agent";
      timeout = codes "5s";
      log_level = pos 1;
    })
    ∷ ok_clicked none
    ∷ []

opened-IsKept :
    IsKept memory memory-IsLawful memory_codec memory_codec-IsInverse config_file temporary_IsTarget
      platform paths
      (codes "C:")
      opened
unfolding load load_config update_backend_controls is_embedded equal
opened-IsKept = ((stored, stored_accepted, refl, stored_validates), (refl, refl))

run-IsKept_example :
    IsKept memory memory-IsLawful memory_codec memory_codec-IsInverse config_file temporary_IsTarget
      platform paths
      (codes "C:")
      (run memory memory_codec config_file platform paths (codes "C:") events opened)
run-IsKept_example =
    run-IsKept memory memory-IsLawful memory_codec memory_codec-IsInverse config_file
      temporary_IsTarget platform paths (codes "C:") events opened opened-IsKept
