-- ===== src/KeyRing/Settings/Panics.antt =====
-- old/pkg/sshutil/sshutil.go: when `DeleteKeySettings` panics.
use omni_sshagent.Base.{
  List, [], ◌∷◌, err, ◌≡◌, ◌≢◌, ◌↔◌, refl, ◌∙◌, arith, Bool-cases, Result-cases, inl, inr,
}
use omni_sshagent.Base.Text.{Text, is_empty}
use omni_sshagent.KeyRing.{PrivateKeyFile, System, State, panicked, Step, ◌>>=◌}
use omni_sshagent.KeyRing.Store.{save, save_in, write_settings, make_dir}
use omni_sshagent.KeyRing.Settings.{delete_loop, replace_keys, delete_from, delete_key_settings}

module _ (sys : System) where
  abbrev pub Calm : {A : Type 0} → Step (State sys) A → Type 0
  Calm m = (s : State sys) → (m s).1 ≢ err panicked

  pub bind-Calm :
      {A B : Type 0} (m : Step (State sys) A) (f : A → Step (State sys) B)
      → Calm m
      → ((a : A) → Calm (f a))
      → Calm (m >>= f)
  bind-Calm m f h k s = elim (Result-cases (m s).1) [
    | inl (a, e) ↦ rw (e, ◌>>=◌) (k a (m s).0)
    | inr (x, e) ↦ rw (e, ◌>>=◌) (λ p. h s (e ∙ ground (arith, p)))
  ]

  make_dir-Calm : (dir : Text) → Calm (make_dir sys dir)
  unfolding make_dir
  make_dir-Calm dir s = ground arith

  write_settings-Calm : (dir : Text) → Calm (write_settings sys dir)
  unfolding write_settings
  write_settings-Calm dir s = ground arith

  save-Calm : Calm (save sys)
  unfolding save save_in
  save-Calm s = elim (Result-cases (sys.user_config_dir s.world)) [
    | inl (config, e) ↦
        rw (e, save)
          (bind-Calm (make_dir sys (sys.join config s.app_name))
            (λ u. write_settings sys (sys.join config s.app_name))
            (make_dir-Calm (sys.join config s.app_name))
            (λ u. write_settings-Calm (sys.join config s.app_name)) s)
    | inr (x, e) ↦ rw (e, save) (ground arith)
  ]

  replace_keys-Calm : (id : Text) (kept : List PrivateKeyFile) → Calm (replace_keys sys id kept)
  unfolding replace_keys
  replace_keys-Calm id kept s = elim (Bool-cases (is_empty id)) [
    | inl e ↦ rw (e) (ground arith)
    | inr e ↦ rw (e) (save-Calm _)
  ]

  delete_from-panicked :
      (sha256 : Text) (keys : List PrivateKeyFile) (s : State sys)
      → ((delete_from sys sha256 keys s).1 ≡ err panicked) ↔ (keys ≡ [])
  unfolding delete_from
  delete_from-panicked sha256 [] s = (λ e. refl, λ e. refl)
  delete_from-panicked sha256 (key ∷ keys) s =
      let h =
        replace_keys-Calm (delete_loop sha256 [] (key ∷ keys)).0
          (delete_loop sha256 [] (key ∷ keys)).1 s in
      ground (arith, h)

  -- `DeleteKeySettings` panics exactly if the settings have no key.
  pub delete_key_settings-panicked :
      (sha256 : Text) (s : State sys)
      → ((delete_key_settings sys sha256 s).1 ≡ err panicked) ↔ (s.save_data.keys ≡ [])
  unfolding delete_key_settings
  delete_key_settings-panicked sha256 s = delete_from-panicked sha256 s.save_data.keys s
