-- ===== src/KeyRing/Settings/Stored.antt =====
-- old/pkg/sshutil/sshutil.go: which keys stand in the settings behind `AddKeySettings` and
-- `DeleteKeySettings`.
use omni_sshagent.Base.{
  true, false, List, [], ◌∷◌, ◌++◌, Option, ok, if◌then◌else◌, ◌≡◌, refl, ap, ◌∙◌, arith, All,
  Bool-cases, Result-cases, inl, inr,
}
use omni_sshagent.Base.Text.{Text, is_empty, equal_refl}
use omni_sshagent.KeyRing.{
  PrivateKeyFile, SaveData, System, State, Step, done, ◌>>=◌, ◌>>◌, act, ask,
}
use omni_sshagent.KeyRing.Store.{save, save_in, write_settings, make_dir}
use omni_sshagent.KeyRing.Settings.{
  has_sha256, delete_loop, save_secret, store_key, replace_keys, delete_from, add_key_settings,
  delete_key_settings,
}

-- The keys of another fingerprint, in their order.
unfoldable pub without : Text → List PrivateKeyFile → List PrivateKeyFile
without sha256 [] = []
without sha256 (key ∷ keys) =
    if has_sha256 sha256 key then without sha256 keys else key ∷ without sha256 keys

abbrev pub IsStripped : PrivateKeyFile → Type 0
IsStripped key = key.passphrase ≡ []

abbrev pub IsOther : Text → PrivateKeyFile → Type 0
IsOther sha256 key = has_sha256 sha256 key ≡ false

delete_loop-kept :
    (sha256 id : Text) (keys : List PrivateKeyFile)
    → (delete_loop sha256 id keys).1 ≡ without sha256 keys
unfolding delete_loop without
delete_loop-kept sha256 id [] = refl
delete_loop-kept sha256 id (key ∷ keys) =
    ground (arith, delete_loop-kept sha256 key.id keys, delete_loop-kept sha256 id keys)

without-All :
    (P : PrivateKeyFile → Type 0) (sha256 : Text) (keys : List PrivateKeyFile)
    → All P keys
    → All P (without sha256 keys)
unfolding without
without-All P sha256 [] h = tt
without-All P sha256 (key ∷ keys) h = elim (Bool-cases (has_sha256 sha256 key)) [
  | inl e ↦ rw (e) (without-All P sha256 keys h.1)
  | inr e ↦ rw (e) (h.0, without-All P sha256 keys h.1)
]

without-append :
    (sha256 : Text) (keys : List PrivateKeyFile) (key : PrivateKeyFile)
    → All (IsOther sha256) keys
    → has_sha256 sha256 key ≡ true
    → without sha256 (keys ++ key ∷ []) ≡ keys
unfolding without
without-append sha256 [] key h e = rw (e)
without-append sha256 (other ∷ keys) key h e = rw (h.0, without-append sha256 keys key h.1 e)

module _ (sys : System) where
  make_dir-Keeps : (dir : Text) (s : State sys) → (make_dir sys dir s).0.save_data ≡ s.save_data
  unfolding make_dir
  make_dir-Keeps dir s = ground arith

  -- A step that leaves the data of the settings as they are.
  abbrev pub Keeps : {A : Type 0} → Step (State sys) A → Type 0
  Keeps m = (s : State sys) → (m s).0.save_data ≡ s.save_data

  pub bind-Keeps :
      {A B : Type 0} (m : Step (State sys) A) (f : A → Step (State sys) B)
      → Keeps m
      → ((a : A) → Keeps (f a))
      → Keeps (m >>= f)
  bind-Keeps m f h k s = elim (Result-cases (m s).1) [
    | inl (a, e) ↦ rw (e, ◌>>=◌) (k a (m s).0 ∙ h s)
    | inr (x, e) ↦ rw (e, ◌>>=◌) (h s)
  ]

  write_settings-Keeps : (dir : Text) → Keeps (write_settings sys dir)
  unfolding write_settings
  write_settings-Keeps dir s = ground arith

  save_in-Keeps : (dir : Text) → Keeps (save_in sys dir)
  unfolding save_in
  save_in-Keeps dir =
      bind-Keeps (make_dir sys dir) (λ u. write_settings sys dir) (make_dir-Keeps dir)
        (λ u. write_settings-Keeps dir)

  pub save-Keeps : Keeps (save sys)
  unfolding save
  save-Keeps s = elim (Result-cases (sys.user_config_dir s.world)) [
    | inl (config, e) ↦ rw (e, save) (save_in-Keeps (sys.join config s.app_name) s)
    | inr (x, e) ↦ rw (e, save)
  ]

  replace_keys-keys :
      (id : Text) (kept : List PrivateKeyFile) (s : State sys)
      → (replace_keys sys id kept s).0.save_data.keys ≡ kept
  unfolding replace_keys
  replace_keys-keys id kept s = elim (Bool-cases (is_empty id)) [
    | inl e ↦ rw (e)
    | inr e ↦ rw (e) (ap (λ (d : SaveData). d.keys) (save-Keeps _))
  ]

  delete_from-keys :
      (sha256 : Text) (keys : List PrivateKeyFile) (s : State sys)
      → s.save_data.keys ≡ keys
      → (delete_from sys sha256 keys s).0.save_data.keys ≡ without sha256 keys
  unfolding delete_from without
  delete_from-keys sha256 [] s e = e
  delete_from-keys sha256 (key ∷ keys) s e =
      replace_keys-keys (delete_loop sha256 [] (key ∷ keys)).0
        (delete_loop sha256 [] (key ∷ keys)).1 s
      ∙ delete_loop-kept sha256 [] (key ∷ keys)

  -- `DeleteKeySettings` leaves in the settings the keys of other fingerprints in their order,
  -- whether it succeeds or not.
  pub delete_key_settings-keys :
      (sha256 : Text) (s : State sys)
      → (delete_key_settings sys sha256 s).0.save_data.keys ≡ without sha256 s.save_data.keys
  unfolding delete_key_settings
  delete_key_settings-keys sha256 s = delete_from-keys sha256 s.save_data.keys s refl

  act-Keeps : (f : sys.World → sys.World × Option Text) → Keeps (act f)
  act-Keeps f s = refl

  save_secret-Keeps : (id passphrase : Text) → Keeps (save_secret sys id passphrase)
  unfolding save_secret
  save_secret-Keeps id passphrase =
      bind-Keeps (act (sys.secret_set id passphrase)) (λ u. save sys >> done id)
        (act-Keeps (sys.secret_set id passphrase))
        (λ u. bind-Keeps (save sys) (λ v. done id) save-Keeps (λ v s. refl))

  store_key-keys :
      (key : PrivateKeyFile) (id : Text) (s : State sys)
      → (store_key sys key id s).0.save_data.keys
        ≡ s.save_data.keys ++ record key { id = id; passphrase = [] } ∷ []
  unfolding store_key
  store_key-keys key id s = ap (λ (d : SaveData). d.keys) (save_secret-Keeps id key.passphrase _)

  -- With a new identifier at hand, `AddKeySettings` puts the key behind the others, with this
  -- identifier and without its passphrase; also when the secret or the settings are then not saved.
  pub add_key_settings-keys :
      (key : PrivateKeyFile) (id : Text) (s : State sys)
      → (sys.new_uuid s.world).1 ≡ ok id
      → (add_key_settings sys key s).0.save_data.keys
        ≡ s.save_data.keys ++ record key { id = id; passphrase = [] } ∷ []
  unfolding add_key_settings
  add_key_settings-keys key id s e =
      rw (e, add_key_settings, ◌>>=◌, ask)
        (store_key-keys key id (record s { world = (sys.new_uuid s.world).0 }))

  -- With a new identifier at hand, deleting the fingerprint of the key that was added restores
  -- the keys of the settings, if no other key had it; also when the secret or the settings could
  -- not be saved.
  pub delete-add :
      (key : PrivateKeyFile) (id : Text) (s : State sys)
      → (sys.new_uuid s.world).1 ≡ ok id
      → All (IsOther key.public_key.sha256) s.save_data.keys
      → (delete_key_settings sys key.public_key.sha256
          (add_key_settings sys key s).0).0.save_data.keys
        ≡ s.save_data.keys
  delete-add key id s e h =
      delete_key_settings-keys key.public_key.sha256 (add_key_settings sys key s).0
      ∙ ap (without key.public_key.sha256) (add_key_settings-keys key id s e)
      ∙ without-append key.public_key.sha256 s.save_data.keys
          (record key { id = id; passphrase = [] }) h (equal_refl key.public_key.sha256)

  All-append_one :
      (P : PrivateKeyFile → Type 0) (keys : List PrivateKeyFile) (key : PrivateKeyFile)
      → All P keys
      → P key
      → All P (keys ++ key ∷ [])
  All-append_one P [] key h k = (k, tt)
  All-append_one P (other ∷ keys) key h k = (h.0, All-append_one P keys key h.1 k)

  -- No passphrase stands in the settings behind `AddKeySettings`, whether it succeeds or not, if none
  -- stood there before.
  pub add_key_settings-IsStripped :
      (key : PrivateKeyFile) (s : State sys)
      → All IsStripped s.save_data.keys
      → All IsStripped (add_key_settings sys key s).0.save_data.keys
  unfolding add_key_settings
  add_key_settings-IsStripped key s h = elim (Result-cases (sys.new_uuid s.world).1) [
    | inl (id, e) ↦ rw (add_key_settings-keys key id s e) (
        All-append_one IsStripped s.save_data.keys (record key { id = id; passphrase = [] }) h refl)
    | inr (x, e) ↦ rw (e, add_key_settings, ◌>>=◌, ask) h
  ]

  -- The same of `DeleteKeySettings`.
  pub delete_key_settings-IsStripped :
      (sha256 : Text) (s : State sys)
      → All IsStripped s.save_data.keys
      → All IsStripped (delete_key_settings sys sha256 s).0.save_data.keys
  delete_key_settings-IsStripped sha256 s h =
      rw (delete_key_settings-keys sha256 s) (without-All IsStripped sha256 s.save_data.keys h)
