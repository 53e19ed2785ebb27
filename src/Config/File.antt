-- ===== src/Config/File.antt =====
-- internal/config/defaults.go, internal/config/toggles.go, and `Decode` and `Load` of
-- internal/config/config.go: the configuration file. TOML's decoder and encoder are a parameter.
pub mod Write
pub mod Toggle
use omni_sshagent.Base.{
  ℕ, Bool, true, false, not, List, [], ◌∷◌, ◌++◌, Option, none, some, Result, ok, err, ◌≡◌,
  if◌then◌else◌,
}
use omni_sshagent.Base.Text.{Text, codes, is_empty}
use omni_sshagent.Files.{
  OsError, Bytes, Stat, regular, other_kind, not_exist, stat_failed, FileSystem, content,
}
use omni_sshagent.Config.{
  Config, RuntimeConfig, Platform, ValidationError, default_config, validate,
}

pub record Codec : Type 0 where
  pub decode : Bytes → Result OsError Config
  pub marshal : Config → Result OsError Bytes

-- What is written is read back.
abbrev pub IsInverse : Codec → Type 0
IsInverse codec = (cfg : Config) (b : Bytes) → codec.marshal cfg ≡ ok b → codec.decode b ≡ ok cfg

-- The step at which the file could not be read or replaced.
pub data FileError : Type 0 where
  open_failed decode_failed inspect_failed encode_failed directory_failed : OsError → FileError
  temporary_failed protect_failed write_failed flush_failed close_failed : OsError → FileError
  install_failed : OsError → FileError
  unknown_setting : ℕ → FileError
  path_unavailable : OsError → FileError
  invalid : ValidationError → FileError

-- `BooleanSetting` is a `uint8`, and any other number is an error.
pub data BooleanSetting : Type 0 where
  pageant_setting cygwin_setting : BooleanSetting
  other_setting : ℕ → BooleanSetting

pub record BooleanSettings : Type 0 where
  pub pageant_enabled : Bool
  pub cygwin_enabled : Bool

boolean_settings : Config → BooleanSettings
boolean_settings cfg = record {
  pageant_enabled = cfg.pageant_enabled;
  cygwin_enabled = cfg.cygwin_enabled;
}

-- The `switch` of `ToggleBooleanSetting`: the changed configuration and the new value.
unfoldable pub flip : BooleanSetting → Config → Result FileError (Config × Bool)
flip pageant_setting cfg =
    ok (record cfg { pageant_enabled = not cfg.pageant_enabled }, not cfg.pageant_enabled)
flip cygwin_setting cfg =
    ok (record cfg { cygwin_enabled = not cfg.cygwin_enabled }, not cfg.cygwin_enabled)
flip (other_setting n) cfg = err (unknown_setting n)

module _ (fs : FileSystem) where
  open fs use {
    World, stat, read_file, mkdir_all, create_temp, chmod, write, sync, close, rename, remove, dir,
  }

  -- `write` from the rename back to its begin, one function for each later part. `name` is the
  -- temporary file and `path` the file to replace.
  unfoldable pub install : Text → Text → World → World × Option FileError
  install name path w =
      let (w', e) = rename name path w in
      (w', elim e [ none ↦ none | some x ↦ some (install_failed x) ])

  unfoldable pub close_install : Text → Text → World → World × Option FileError
  close_install name path w =
      let (w', e) = close name w in
      elim e [ none ↦ install name path w' | some x ↦ (w', some (close_failed x)) ]

  -- An error closes the file first.
  give_up : Text → FileError → World → World × Option FileError
  give_up name e w = ((close name w).0, some e)

  unfoldable pub sync_install : Text → Text → World → World × Option FileError
  unfolding give_up
  sync_install name path w =
      let (w', e) = sync name w in
      elim e [ none ↦ close_install name path w' | some x ↦ give_up name (flush_failed x) w' ]

  unfoldable pub write_install : Text → Bytes → Text → World → World × Option FileError
  unfolding give_up
  write_install name bytes path w =
      let (w', e) = write name bytes w in
      elim e [ none ↦ sync_install name path w' | some x ↦ give_up name (write_failed x) w' ]

  unfoldable pub chmod_install : Text → Bytes → Text → World → World × Option FileError
  unfolding give_up
  chmod_install name bytes path w =
      let (w', e) = chmod name w in
      elim e [
        | none ↦ write_install name bytes path w'
        | some x ↦ give_up name (protect_failed x) w'
      ]

  -- The deferred `os.Remove` of the temporary file comes last on every path.
  unfoldable pub fill : Text → Bytes → Text → World → World × Option FileError
  fill name bytes path w = let (w', e) = chmod_install name bytes path w in ((remove name w').0, e)

  unfoldable pub write_file : Text → Bytes → World → World × Option FileError
  write_file path bytes w =
      let (w', e) = mkdir_all (dir path) w in
      elim e [
        | some x ↦ (w', some (directory_failed x))
        | none ↦
            let (w'', r) = create_temp (dir path) (codes ".config-*.tmp") w' in
            elim r [ err x ↦ (w'', some (temporary_failed x)) | ok name ↦ fill name bytes path w'' ]
      ]

  module _ (codec : Codec) where
    open codec use {decode, marshal}

    unfoldable pub decode_config : Bytes → Result FileError Config
    decode_config bytes = elim (decode bytes) [ ok cfg ↦ ok cfg | err x ↦ err (decode_failed x) ]

    unfoldable pub load : Text → World → Result FileError Config
    unfolding decode_config
    load path w = elim (read_file path w) [
      | ok bytes ↦ decode_config bytes
      | err x ↦ err (open_failed x)
    ]

    unfoldable pub save_bytes : Text → Result OsError Bytes → World → World × Option FileError
    save_bytes path (err x) w = (w, some (encode_failed x))
    save_bytes path (ok bytes) w = write_file path bytes w

    unfoldable pub save : Text → Config → World → World × Option FileError
    save path cfg w = save_bytes path (marshal cfg) w

    create_missing : Text → World → World × Result FileError Bool
    create_missing path w =
        let (w', e) = save path default_config w in (w', elim e [ none ↦ ok true | some x ↦ err x ])

    -- The flag says whether the file was created.
    unfoldable pub create_default : Text → World → World × Result FileError Bool
    unfolding create_missing
    create_default path w = elim (stat path w) [
      | regular ↦ (w, ok false)
      | other_kind ↦ (w, ok false)
      | stat_failed x ↦ (w, err (inspect_failed x))
      | not_exist ↦ create_missing path w
    ]

    unfoldable pub load_boolean_settings : Text → World → Result FileError BooleanSettings
    unfolding boolean_settings load
    load_boolean_settings path w = elim (load path w) [
      | ok cfg ↦ ok (boolean_settings cfg)
      | err e ↦ err e
    ]

    save_flipped : Text → World → Result FileError (Config × Bool) → World × Result FileError Bool
    save_flipped path w (err e) = (w, err e)
    save_flipped path w (ok (cfg, enabled)) =
        let (w', e) = save path cfg w in (w', elim e [ none ↦ ok enabled | some x ↦ err x ])

    toggle_config :
        Text → BooleanSetting → World → Result FileError Config → World × Result FileError Bool
    toggle_config path setting w (err e) = (w, err e)
    toggle_config path setting w (ok cfg) = save_flipped path w (flip setting cfg)

    unfoldable pub toggle_boolean_setting :
        Text → BooleanSetting → World → World × Result FileError Bool
    unfolding toggle_config save_flipped
    toggle_boolean_setting path setting w = toggle_config path setting w (load path w)

    -- `os.UserConfigDir`, `LOCALAPPDATA`, `os.UserCacheDir` and `USERPROFILE`.
    module _ (platform : Platform) where
      unfoldable pub default_config_path : Result OsError Text → Result FileError Text
      default_config_path config_dir = elim config_dir [
        | err x ↦ err (path_unavailable x)
        | ok d ↦ ok (platform.join (d ∷ codes "OmniSSHAgent" ∷ codes "config.toml" ∷ []))
      ]

      unfoldable pub default_log_directory : Text → Result OsError Text → Result FileError Text
      default_log_directory local_app_data cache_dir =
          let log_dir =
            λ (d : Text). platform.join (d ∷ codes "OmniSSHAgent" ∷ codes "logs" ∷ []) in
          if is_empty local_app_data
          then elim cache_dir [ err x ↦ err (path_unavailable x) | ok d ↦ ok (log_dir d) ]
          else ok (log_dir local_app_data)

      check : Text → Text → Text → Config → Result FileError RuntimeConfig
      check path log_directory user_profile cfg =
          elim (validate platform cfg path log_directory user_profile) [
            | ok r ↦ ok r
            | err e ↦ err (invalid e)
          ]

      unfoldable pub load_runtime :
          Text → Result FileError Text → Text → World → Result FileError RuntimeConfig
      unfolding check
      load_runtime path log_directory user_profile w = elim log_directory [
        | err e ↦ err e
        | ok d ↦ elim (load path w) [ err e ↦ err e | ok cfg ↦ check path d user_profile cfg ]
      ]
