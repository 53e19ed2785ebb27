-- ===== src/Config/Laws.antt =====
-- What `Validate` of internal/config/config.go accepts, and what it returns.
use omni_sshagent.Base.{
  true, [], ◌∷◌, ◌++◌, some, ◌≡◌, ◌⊎◌, refl, ap, arith, Result, ok, err, int_eq_iff, is_positive,
}
use omni_sshagent.Base.Text.{
  Text, equal_iff, trim_space, has_prefix, has_prefix-append, to_lower, lower_rune,
}
use omni_sshagent.Config.{
  Config, Duration, RuntimeConfig, Platform, ValidationError, pipe_prefix, backend_windows_openssh,
  backend_embedded, schema_version, default_connect_timeout, pipe_path, backend_settings, validate,
}

module _ (platform : Platform) where
  open platform use {lower_other, parse_duration, is_abs, clean, join}

  -- A named pipe's path: the prefix in any letter case, and a rest.
  pub IsPipePath : Text → Type 0
  IsPipePath path = has_prefix (to_lower lower_other path) pipe_prefix ≡ true

  to_lower-append :
      (s t : Text)
      → to_lower lower_other (s ++ t) ≡ to_lower lower_other s ++ to_lower lower_other t
  unfolding to_lower
  to_lower-append [] t = refl
  to_lower-append (c ∷ s) t = ap (◌∷◌ (lower_rune lower_other c)) (to_lower-append s t)

  to_lower-pipe_prefix : to_lower lower_other pipe_prefix ≡ pipe_prefix
  unfolding to_lower
  to_lower-pipe_prefix = refl

  IsPipePath-append : (name : Text) → IsPipePath (pipe_prefix ++ name)
  unfolding IsPipePath
  IsPipePath-append name =
      rw (to_lower-append pipe_prefix name, to_lower-pipe_prefix)
        (has_prefix-append pipe_prefix (to_lower lower_other name))

  PipeOk : Result ValidationError Text → Type 0
  PipeOk (ok pipe) = IsPipePath pipe
  PipeOk (err _) = Unit

  pipe_path-PipeOk : (text : Text) → PipeOk (pipe_path platform text)
  unfolding pipe_path IsPipePath PipeOk
  pipe_path-PipeOk text = ground (arith, IsPipePath-append (trim_space text))

  BackendOk : Config → Result ValidationError (Text × Duration) → Type 0
  BackendOk cfg (ok (pipe, timeout)) =
      (((cfg.backend_type ≡ backend_windows_openssh)
          × IsPipePath pipe
          × (parse_duration cfg.backend_connect_timeout ≡ some timeout))
        ⊎ ((cfg.backend_type ≡ backend_embedded)
            × (pipe ≡ [])
            × (timeout ≡ default_connect_timeout)))
      × (is_positive timeout ≡ true)
  BackendOk cfg (err _) = Unit

  backend_settings-BackendOk : (cfg : Config) → BackendOk cfg (backend_settings platform cfg)
  unfolding backend_settings BackendOk PipeOk
  backend_settings-BackendOk cfg = ground (
    arith,
    equal_iff cfg.backend_type backend_windows_openssh,
    equal_iff cfg.backend_type backend_embedded,
    pipe_path-PipeOk cfg.backend_pipe,
  )

  -- The part of the result that comes from the backend's settings.
  ValidateOk : Config → Result ValidationError RuntimeConfig → Type 0
  ValidateOk cfg (ok r) =
      (cfg.version ≡ schema_version)
      × BackendOk cfg (ok (r.backend_pipe_path, r.connect_timeout))
      × (r.backend_type ≡ cfg.backend_type)
      × (r.pageant_enabled ≡ cfg.pageant_enabled)
      × (r.cygwin_enabled ≡ cfg.cygwin_enabled)
  ValidateOk cfg (err _) = Unit

  validate-ValidateOk :
      (cfg : Config) (config_path log_directory user_profile : Text)
      → ValidateOk cfg (validate platform cfg config_path log_directory user_profile)
  unfolding validate ValidateOk
  validate-ValidateOk cfg config_path log_directory user_profile =
      ground (arith, int_eq_iff cfg.version schema_version, backend_settings-BackendOk cfg)

  -- An accepted configuration has version 1 and a backend that the program knows. With the OpenSSH
  -- backend the pipe is a path under the pipe prefix, in any letter case, and the timeout is the
  -- parsed one; with the embedded backend the pipe is empty and the timeout is the default. The
  -- timeout is positive, and the type and the two switches are passed on unchanged.
  pub validate-accepted :
      (cfg : Config) (config_path log_directory user_profile : Text) {r : RuntimeConfig}
      → validate platform cfg config_path log_directory user_profile ≡ ok r
      → (cfg.version ≡ schema_version)
        × (((cfg.backend_type ≡ backend_windows_openssh)
              × IsPipePath r.backend_pipe_path
              × (parse_duration cfg.backend_connect_timeout ≡ some r.connect_timeout))
            ⊎ ((cfg.backend_type ≡ backend_embedded)
                × (r.backend_pipe_path ≡ [])
                × (r.connect_timeout ≡ default_connect_timeout)))
        × (is_positive r.connect_timeout ≡ true)
        × (r.backend_type ≡ cfg.backend_type)
        × (r.pageant_enabled ≡ cfg.pageant_enabled)
        × (r.cygwin_enabled ≡ cfg.cygwin_enabled)
  unfolding ValidateOk BackendOk
  validate-accepted cfg config_path log_directory user_profile h =
      ground (arith, rw h at (validate-ValidateOk cfg config_path log_directory user_profile))
