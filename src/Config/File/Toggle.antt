-- ===== src/Config/File/Toggle.antt =====
-- What internal/config/toggles.go and `CreateDefault` leave in the configuration file.
use omni_sshagent.Base.{
  Bool, true, not, Option, none, some, Result, ok, err, ◌≡◌, ◌≢◌, ◌⊎◌, refl, arith, Option-cases,
  inl, inr,
}
use omni_sshagent.Base.Text.{Text}
use omni_sshagent.Files.{OsError, Bytes, FileSystem, IsLawful, content, not_exist}
use omni_sshagent.Config.{Config, default_config}
use omni_sshagent.Config.File.{
  Codec, IsInverse, FileError, BooleanSetting, pageant_setting, cygwin_setting, other_setting, flip,
  write_file, load, save, save_bytes, save_flipped, toggle_config, create_default,
  toggle_boolean_setting,
}
use omni_sshagent.Config.File.Write.{IsTarget, write_file-Replaced}

module _ (fs : FileSystem) (codec : Codec) where
  open fs use {World}

  load-content :
      (path : Text) (w : World) (b : Bytes) {cfg : Config}
      → content fs path w ≡ some b
      → codec.decode b ≡ ok cfg
      → load fs codec path w ≡ ok cfg
  unfolding content load
  load-content path w b h d = ground arith

  pub load-same :
      (path : Text) (v w : World) {cfg : Config}
      → content fs path v ≡ content fs path w
      → load fs codec path w ≡ ok cfg
      → load fs codec path v ≡ ok cfg
  unfolding content load
  load-same path v w h l = ground arith

module _ (fs : FileSystem) (laws : IsLawful fs) (codec : Codec) (inverse : IsInverse codec)
    (path : Text) (target : IsTarget fs path) where
  open fs use {World}

  -- After a save: the configuration is loaded again, or on an error the file is as before.
  abbrev pub Saved : Config → World → World × Option FileError → Type 0
  Saved cfg w (w', none) = load fs codec path w' ≡ ok cfg
  Saved cfg w (w', some _) = content fs path w' ≡ content fs path w

  save_bytes-Saved :
      (cfg : Config) (w : World) (r : Result OsError Bytes)
      → codec.marshal cfg ≡ r
      → Saved cfg w (save_bytes fs codec path r w)
  unfolding save_bytes
  save_bytes-Saved cfg w (err x) e = refl
  save_bytes-Saved cfg w (ok bytes) e = ground (
    arith,
    write_file-Replaced fs laws path target bytes w,
    load-content fs codec path (write_file fs path bytes w).0 bytes {cfg = cfg},
    inverse cfg bytes e,
  )

  -- What was saved without an error is what the next load reads, and a save that fails leaves the
  -- content of the file as it was.
  pub save-Saved : (cfg : Config) (w : World) → Saved cfg w (save fs codec path cfg w)
  unfolding save
  save-Saved cfg w = save_bytes-Saved cfg w (codec.marshal cfg) refl

  -- The new configuration differs in the flag of this setting alone, which is the other one.
  abbrev pub IsNegated : BooleanSetting → Config → Config → Bool → Type 0
  IsNegated pageant_setting cfg new enabled =
      (enabled ≡ not cfg.pageant_enabled) × (new ≡ record cfg { pageant_enabled = enabled })
  IsNegated cygwin_setting cfg new enabled =
      (enabled ≡ not cfg.cygwin_enabled) × (new ≡ record cfg { cygwin_enabled = enabled })
  IsNegated (other_setting n) cfg new enabled = ⊥

  flip-IsNegated :
      (setting : BooleanSetting) (cfg new : Config) (enabled : Bool)
      → flip setting cfg ≡ ok (new, enabled)
      → IsNegated setting cfg new enabled
  unfolding flip
  flip-IsNegated pageant_setting cfg new enabled f = (ground (arith, f), ground (arith, f))
  flip-IsNegated cygwin_setting cfg new enabled f = (ground (arith, f), ground (arith, f))
  flip-IsNegated (other_setting n) cfg new enabled f = ground (arith, f)

  -- After a toggle: this flag of the loaded configuration is negated in what is stored, and its new
  -- value is returned; or on an error the file is as before.
  abbrev pub Toggled : BooleanSetting → World → World × Result FileError Bool → Type 0
  Toggled setting w (w', ok enabled) =
      (cfg : Config) × (new : Config) × (load fs codec path w ≡ ok cfg)
      × IsNegated setting cfg new enabled
      × (load fs codec path w' ≡ ok new)
  Toggled setting w (w', err _) = content fs path w' ≡ content fs path w

  save_flipped-Toggled :
      (setting : BooleanSetting) (w : World) (cfg : Config) (r : Result FileError (Config × Bool))
      → load fs codec path w ≡ ok cfg
      → flip setting cfg ≡ r
      → Toggled setting w (save_flipped fs codec path w r)
  unfolding save_flipped
  save_flipped-Toggled setting w cfg (err e) l f = refl
  save_flipped-Toggled setting w cfg (ok (new, flag)) l f =
      elim (Option-cases (save fs codec path new w).1) [
        | inl e ↦
            rw e
              (cfg, new, l, flip-IsNegated setting cfg new flag f, ground (arith, save-Saved new w))
        | inr (x, e) ↦ rw e (ground (arith, save-Saved new w))
      ]

  toggle_config-Toggled :
      (setting : BooleanSetting) (w : World) (r : Result FileError Config)
      → load fs codec path w ≡ r
      → Toggled setting w (toggle_config fs codec path setting w r)
  unfolding toggle_config
  toggle_config-Toggled setting w (ok cfg) l =
      save_flipped-Toggled setting w cfg (flip setting cfg) l refl
  toggle_config-Toggled setting w (err e) l = refl

  -- A toggle that succeeds has negated this one flag of the configuration that it loaded, has
  -- stored the result and returns the flag's new value; a toggle that fails, at any step, leaves
  -- the content of the file as it was.
  pub toggle-Toggled :
      (setting : BooleanSetting) (w : World)
      → Toggled setting w (toggle_boolean_setting fs codec path setting w)
  unfolding toggle_boolean_setting
  toggle-Toggled setting w = toggle_config-Toggled setting w (load fs codec path w) refl

  -- `CreateDefault` changes nothing where `os.Stat` finds something or fails. Otherwise it creates
  -- the file, and the default configuration is loaded from it, or it fails and the content of the
  -- path is as before.
  pub create_default_creates :
      (w : World)
      → ((fs.stat path w ≢ not_exist) × ((create_default fs codec path w).0 ≡ w))
        ⊎ ((fs.stat path w ≡ not_exist)
            × ((((create_default fs codec path w).1 ≡ ok true)
                  × (load fs codec path (create_default fs codec path w).0 ≡ ok default_config))
                ⊎ (((create_default fs codec path w).1 ≢ ok true)
                    × (content fs path (create_default fs codec path w).0 ≡ content fs path w))))
  unfolding create_default
  create_default_creates w = ground (arith, save-Saved default_config w)
