-- ===== src/KeyRing/Agent/Adding.antt =====
-- old/pkg/sshutil/sshutil.go: what `AddKey` and `RemoveKey` do to the settings, and when `AddKey`
-- panics.
use omni_sshagent.Base.{
  false, List, Option, none, some, Result, ok, err, ◌≡◌, ◌≢◌, refl, ◌∙◌, arith, map, Bool-cases,
  inl, inr,
}
use omni_sshagent.Base.Text.{Text, is_empty}
use omni_sshagent.KeyRing.{
  PublicKey, PrivateKeyFile, System, Notice, State, panicked, Step, done, ◌>>=◌, given, act, ask,
  outcome,
}
use omni_sshagent.KeyRing.Settings.{find_id}
use omni_sshagent.KeyRing.Settings.Stored.{Keeps, bind-Keeps}
use omni_sshagent.KeyRing.Settings.Panics.{Calm}
use omni_sshagent.KeyRing.Load.{Added, Loaded, load_keyfile, load_keyfile-Describes, Describes}
use omni_sshagent.KeyRing.Agent.{
  notice, between, list, public_key_of, list_publickeys, add_missing, add_found, add, add_loaded,
  add_result, add_file, load_and_add, add_key, holds,
}

module _ (sys : System) where
  notice-Keeps : (n : Notice sys) (s : State sys) → (notice sys n s).save_data ≡ s.save_data
  unfolding notice
  notice-Keeps n s = ground arith

  between-Keeps :
      {A : Type 0} (before after : Notice sys) (m : Step (State sys) A)
      → Keeps sys m
      → Keeps sys (between sys before after m)
  unfolding between
  between-Keeps before after m h s =
      notice-Keeps after _ ∙ h (notice sys before s) ∙ notice-Keeps before s

  outcome_calm : (o : Option Text) → outcome o ≢ err panicked
  outcome_calm none h = ground (arith, h)
  outcome_calm (some e) h = ground (arith, h)

  add_result-Calm :
      (path passphrase : Text) (l : Loaded sys)
      → Describes sys path passphrase l
      → is_empty passphrase ≡ false
      → Calm sys (add_result sys l)
  unfolding add_result add_loaded add between
  add_result-Calm path passphrase (err e) d h s = ground arith
  add_result-Calm path passphrase (ok (file, some (private, comment))) d h s = outcome_calm _
  add_result-Calm path passphrase (ok (file, none)) d h s = ground (arith, d.4, h)

  -- `AddKey` of a key that the agent does not hold does not panic where its secret is not empty.
  pub load_and_add_calm :
      (key : PrivateKeyFile) (id passphrase : Text) (s : State sys)
      → (sys.secret_get id s.world).1 ≡ ok passphrase
      → is_empty passphrase ≡ false
      → (load_and_add sys key id s).1 ≢ err panicked
  unfolding load_and_add add_file
  load_and_add_calm key id passphrase s e h =
      rw (e, load_and_add, ◌>>=◌, ask)
        (add_result-Calm key.file_path passphrase
          (load_keyfile sys key.file_path passphrase (sys.secret_get id s.world).0)
          (load_keyfile-Describes sys key.file_path passphrase (sys.secret_get id s.world).0) h
          (record s { world = (sys.secret_get id s.world).0 }))

  -- Behind its look into the agent, `AddKey` panics where the secret was found and `LoadKeyfile`
  -- then returns neither a key to add nor an error.
  pub load_and_add_panics :
      (key file : PrivateKeyFile) (id passphrase : Text) (s : State sys)
      → (sys.secret_get id s.world).1 ≡ ok passphrase
      → load_keyfile sys key.file_path passphrase (sys.secret_get id s.world).0 ≡ ok (file, none)
      → (load_and_add sys key id s).1 ≡ err panicked
  unfolding load_and_add add_file add_result add_loaded
  load_and_add_panics key file id passphrase s e h =
      rw (e, load_and_add, ◌>>=◌, ask) (rw (h, add_file))

  add-Keeps : (key : Added sys) → Keeps sys (add sys key)
  unfolding add
  add-Keeps (private, comment) = between-Keeps _ _ (act (sys.add private comment)) (λ s. refl)

  add_result-Keeps : (l : Loaded sys) → Keeps sys (add_result sys l)
  unfolding add_result add_loaded
  add_result-Keeps (err e) s = refl
  add_result-Keeps (ok (file, some key)) s = add-Keeps key s
  add_result-Keeps (ok (file, none)) s = refl

  load_and_add-Keeps : (key : PrivateKeyFile) (id : Text) → Keeps sys (load_and_add sys key id)
  unfolding load_and_add add_file
  load_and_add-Keeps key id =
      bind-Keeps sys (ask (sys.secret_get id)) (add_file sys key.file_path) (λ s. refl)
        (λ p s. add_result-Keeps (load_keyfile sys key.file_path p s.world) s)

  list_publickeys-Keeps : Keeps sys (list_publickeys sys)
  unfolding list_publickeys list
  list_publickeys-Keeps =
      bind-Keeps sys (list sys) (λ keys. done (map (public_key_of sys) keys))
        (between-Keeps _ _ (ask sys.list) (λ s. refl)) (λ keys s. refl)

  add_missing-Keeps :
      (id : Text) (key : PrivateKeyFile) (keys : List PublicKey)
      → Keeps sys (add_missing sys id key keys)
  unfolding add_missing
  add_missing-Keeps id key keys s = elim (Bool-cases (holds sys key.public_key.sha256 keys)) [
    | inl e ↦ rw (e)
    | inr e ↦ rw (e) (load_and_add-Keeps key id s)
  ]

  given-Keeps : {A : Type 0} (r : Result Text A) → Keeps sys (given r)
  given-Keeps (ok a) s = refl
  given-Keeps (err e) s = refl

  -- `AddKey` leaves the settings as they are, whether it succeeds, fails or panics.
  pub add_key-Keeps : (id : Text) → Keeps sys (add_key sys id)
  unfolding add_key add_found
  add_key-Keeps id s =
      bind-Keeps sys (given (find_id id s.save_data.keys)) (add_found sys id)
        (given-Keeps (find_id id s.save_data.keys))
        (λ key.
          bind-Keeps sys (list_publickeys sys) (add_missing sys id key) list_publickeys-Keeps
            (add_missing-Keeps id key))
        s
