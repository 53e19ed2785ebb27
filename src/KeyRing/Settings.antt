-- ===== src/KeyRing/Settings.antt =====
-- old/pkg/sshutil/sshutil.go: `AddKeySettings`, `DeleteKeySettings` and `getKey` of `KeyRing`, on
-- the settings and the store of secrets.
pub mod Stored
pub mod Panics
use omni_sshagent.Base.{
  Bool, true, false, not, List, [], ◌∷◌, ◌++◌, Option, none, some, Result, ok, err, if◌then◌else◌,
  ◌≡◌, ◌≢◌, refl, sym, ap, ◌∙◌, arith, All, Bool-cases, inl, inr,
}
use omni_sshagent.Base.Text.{Text, codes, equal, is_empty, equal_refl}
use omni_sshagent.KeyRing.{
  PublicKey, PrivateKeyFile, SaveData, System, State, Fault, failed, panicked, Step, done, fail,
  ◌>>=◌, ◌>>◌, given, act, ask, set_keys, outcome, result,
}
use omni_sshagent.KeyRing.Store.{save}

abbrev pub has_sha256 : Text → PrivateKeyFile → Bool
has_sha256 sha256 key = equal key.public_key.sha256 sha256

-- The loop of `DeleteKeySettings`: the identifier of the last key that goes, and the keys that stay.
unfoldable pub delete_loop : Text → Text → List PrivateKeyFile → Text × List PrivateKeyFile
delete_loop sha256 id [] = (id, [])
delete_loop sha256 id (key ∷ keys) =
    let gone = delete_loop sha256 key.id keys in
    let (last, kept) = delete_loop sha256 id keys in
    if has_sha256 sha256 key then gone else (last, key ∷ kept)

-- `KeyRing.getKey`
unfoldable pub find_id : Text → List PrivateKeyFile → Result Text PrivateKeyFile
find_id id [] = err (codes "Not found key ID:" ++ id)
find_id id (key ∷ keys) = let rest = find_id id keys in if equal key.id id then ok key else rest

module _ (sys : System) where
  -- Behind the change of the keys.
  unfoldable pub save_secret : Text → Text → Step (State sys) Text
  save_secret id passphrase = do act (sys.secret_set id passphrase); save sys; done id

  unfoldable pub store_key : PrivateKeyFile → Text → Step (State sys) Text
  unfolding save_secret
  store_key key id s =
      let keys = s.save_data.keys ++ record key { id = id; passphrase = [] } ∷ [] in
      save_secret id key.passphrase (record s { save_data = record s.save_data { keys = keys } })

  unfoldable pub add_key_settings : PrivateKeyFile → Step (State sys) Text
  unfolding store_key
  add_key_settings key = ask sys.new_uuid >>= store_key key

  -- Behind the loop. The error of `SecretStore.Remove` is dropped.
  unfoldable pub replace_keys : Text → List PrivateKeyFile → Step (State sys) Unit
  replace_keys id kept s =
      let s' = record s { save_data = record s.save_data { keys = kept } } in
      if is_empty id
      then (s', ok tt)
      else save sys (record s' { world = (sys.secret_remove id s'.world).0 })

  -- `make` panics on a capacity below zero.
  unfoldable pub delete_from : Text → List PrivateKeyFile → Step (State sys) Unit
  unfolding replace_keys
  delete_from sha256 [] s = (s, err panicked)
  delete_from sha256 (key ∷ keys) s =
      let (id, kept) = delete_loop sha256 [] (key ∷ keys) in replace_keys id kept s

  unfoldable pub delete_key_settings : Text → Step (State sys) Unit
  unfolding delete_from
  delete_key_settings sha256 s = delete_from sha256 s.save_data.keys s
