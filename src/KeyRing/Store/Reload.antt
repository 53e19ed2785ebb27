-- ===== src/KeyRing/Store/Reload.antt =====
-- old/pkg/store/store.go: what `Save` has written, `Load` gives back.
use omni_sshagent.Base.{
  Option, none, some, Result, ok, err, ◌≡◌, ◌≢◌, refl, sym, ap, ◌∙◌, arith, Bool-cases,
  Result-cases, inl, inr,
}
use omni_sshagent.Base.Text.{Text}
use omni_sshagent.Files.{Bytes}
use omni_sshagent.KeyRing.{SaveData, System, State, Fault, ◌>>=◌, given, act, outcome}
use omni_sshagent.KeyRing.Store.{filename, is_dir, make_dir, write_settings, save_in, save, load}

-- A file holds what was written to it, and neither a write nor a new directory moves the user's
-- configuration directory.
pub record Persists (sys : System) : Type 0 where
  pub write-read :
      (p : Text) (b : Bytes) (w : sys.World)
      → (sys.write_file p b w).1 ≡ none
      → sys.read_file p (sys.write_file p b w).0 ≡ ok b
  pub write-config_dir :
      (p : Text) (b : Bytes) (w : sys.World)
      → sys.user_config_dir (sys.write_file p b w).0 ≡ sys.user_config_dir w
  pub mkdir-config_dir :
      (p : Text) (w : sys.World) → sys.user_config_dir (sys.mkdir_all p w).0 ≡ sys.user_config_dir w

module _ (sys : System) (persists : Persists sys) where
  -- The state behind a step differs from the one before in the world only, and not in where the
  -- configuration is.
  abbrev Stays : State sys → State sys → Type 0
  Stays s t =
      (t.save_data ≡ s.save_data)
      × (t.app_name ≡ s.app_name)
      × (sys.user_config_dir t.world ≡ sys.user_config_dir s.world)

  make_dir-Stays : (dir : Text) (s : State sys) → Stays s (make_dir sys dir s).0
  unfolding make_dir
  make_dir-Stays dir s = elim (Bool-cases (is_dir sys dir s.world)) [
    | inl e ↦ rw (e, make_dir) (refl, refl, refl)
    | inr e ↦ rw (e, make_dir) (refl, refl, persists.mkdir-config_dir dir s.world)
  ]

  -- What stands in the file, behind a `Save` that succeeded.
  abbrev Holds : Text → Bytes → State sys → Type 0
  Holds dir b t = sys.read_file (sys.join dir filename) t.world ≡ ok b

  outcome_none : (o : Option Text) → outcome o ≡ ok tt → o ≡ none
  outcome_none none h = refl
  outcome_none (some e) h = absurd (ground (arith, h))

  write_settings_ok :
      (dir : Text) (b : Bytes) (s : State sys)
      → sys.to_json s.save_data ≡ ok b
      → write_settings sys dir s ≡ act (sys.write_file (sys.join dir filename) b) s
  unfolding write_settings
  write_settings_ok dir b s e =
      ap
        (λ (r : Result Text Bytes).
          (given r >>= λ c. act (sys.write_file (sys.join dir filename) c)) s)
        e

  -- What a step that succeeded leaves: the file holds the bytes, and the rest is as it was.
  abbrev Saves : Text → Bytes → State sys → State sys × Result {0, 0} Fault Unit → Type 0
  Saves dir b s p = Holds dir b p.0 × Stays s p.0

  write_settings-Saves :
      (dir : Text) (b : Bytes) (s : State sys)
      → sys.to_json s.save_data ≡ ok b
      → (write_settings sys dir s).1 ≡ ok tt
      → Saves dir b s (write_settings sys dir s)
  write_settings-Saves dir b s e h =
      let shape = write_settings_ok dir b s e in
      let done = ap (λ (p : State sys × Result {0, 0} Fault Unit). p.1) (sym shape) ∙ h in
      rw (shape) (
        persists.write-read (sys.join dir filename) b s.world
            (outcome_none (sys.write_file (sys.join dir filename) b s.world).1 done),
        (refl, refl, persists.write-config_dir (sys.join dir filename) b s.world),
      )

  save_in_ok :
      (dir : Text) (s : State sys)
      → (make_dir sys dir s).1 ≡ ok tt
      → save_in sys dir s ≡ write_settings sys dir (make_dir sys dir s).0
  unfolding save_in
  save_in_ok dir s e = rw (e, save_in, ◌>>=◌)

  save_in_failed :
      (dir : Text) (x : Fault) (s : State sys)
      → (make_dir sys dir s).1 ≡ err x
      → (save_in sys dir s).1 ≢ ok tt
  unfolding save_in
  save_in_failed dir x s e = rw (e, save_in, ◌>>=◌) (λ h. ground (arith, h))

  save_in-Saves :
      (dir : Text) (b : Bytes) (s : State sys)
      → sys.to_json s.save_data ≡ ok b
      → (save_in sys dir s).1 ≡ ok tt
      → Saves dir b s (save_in sys dir s)
  save_in-Saves dir b s e h = elim (Result-cases (make_dir sys dir s).1) [
    | inl (u, k) ↦
        let shape = save_in_ok dir s k in
        let (d, n, c) = make_dir-Stays dir s in
        let (held, (d', n', c')) =
          write_settings-Saves dir b (make_dir sys dir s).0 (ap sys.to_json d ∙ e)
            (ap (λ (p : State sys × Result {0, 0} Fault Unit). p.1) (sym shape) ∙ h) in
        rw (shape) (held, (d' ∙ d, n' ∙ n, c' ∙ c))
    | inr (x, k) ↦ absurd (save_in_failed dir x s k h)
  ]

  load_of :
      (config : Text) (b : Bytes) (d : SaveData) (t : State sys)
      → sys.user_config_dir t.world ≡ ok config
      → Holds (sys.join config t.app_name) b t
      → sys.from_json b ≡ ok d
      → (load sys t).0.save_data ≡ d
  unfolding load
  load_of config b d t e h k = rw (e, h, k, load)

  save_shape :
      (config : Text) (s : State sys)
      → sys.user_config_dir s.world ≡ ok config
      → save sys s ≡ save_in sys (sys.join config s.app_name) s
  unfolding save
  save_shape config s e = rw (e, save)

  save_failed :
      (x : Text) (s : State sys) → sys.user_config_dir s.world ≡ err x → (save sys s).1 ≢ ok tt
  unfolding save
  save_failed x s e = rw (e, save) (λ h. ground (arith, h))

  -- After a `Save` that succeeded, `Load` restores the settings that were saved, whatever is in
  -- memory by then, where JSON gives back these settings, a file holds what was written, and
  -- neither this write nor a new directory moves the user's configuration directory.
  pub load-save :
      (s : State sys) (d : SaveData) (b : Bytes)
      → sys.to_json s.save_data ≡ ok b
      → sys.from_json b ≡ ok s.save_data
      → (save sys s).1 ≡ ok tt
      → (load sys (record (save sys s).0 { save_data = d })).0.save_data ≡ s.save_data
  load-save s d b e f h = elim (Result-cases (sys.user_config_dir s.world)) [
    | inl (config, k) ↦
        let shape = save_shape config s k in
        let (held, (same, name, dir)) =
          save_in-Saves (sys.join config s.app_name) b s e
            (ap (λ (p : State sys × Result {0, 0} Fault Unit). p.1) (sym shape) ∙ h) in
        let t = (save_in sys (sys.join config s.app_name) s).0 in
        rw (shape) (
          load_of config b s.save_data (record t { save_data = d }) (dir ∙ k)
            (ap (λ (n : Text). sys.read_file (sys.join (sys.join config n) filename) t.world) name
              ∙ held)
            f)
    | inr (x, k) ↦ absurd (save_failed x s k h)
  ]
