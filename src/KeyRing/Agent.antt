-- ===== src/KeyRing/Agent.antt =====
-- old/pkg/sshutil/sshutil.go: the operations of `KeyRing` as an agent. Each tells the callback before
-- and after it calls the agent that holds the keys.
pub mod Adding
use omni_sshagent.Base.{
  ℕ, Bool, true, false, List, [], ◌∷◌, ◌++◌, Option, none, some, Result, ok, err, if◌then◌else◌,
  ◌≡◌, refl, map,
}
use omni_sshagent.Base.Text.{Text, codes, equal}
use omni_sshagent.Files.{Bytes}
use omni_sshagent.KeyRing.{
  PublicKey, PrivateKeyFile, SaveData, System, Notice, plain, of_key, of_private, of_bytes, State,
  Fault, failed, panicked, Step, done, fail, ◌>>=◌, ◌>>◌, given, act, ask, outcome, result,
}
use omni_sshagent.KeyRing.Settings.{find_id}
use omni_sshagent.KeyRing.Load.{Added, Loaded, load_keyfile}

module _ (sys : System) where
  -- The calls of the callback are recorded in the order in which they are made.
  unfoldable pub notice : Notice sys → State sys → State sys
  notice n s = if s.has_callback then record s { notices = s.notices ++ n ∷ [] } else s

  -- A call between two notices, the second of which is deferred.
  unfoldable pub between :
      {A : Type 0} → Notice sys → Notice sys → Step (State sys) A → Step (State sys) A
  unfolding notice
  between before after step s = let (s', r) = step (notice before s) in (notice after s', r)

  unfoldable pub list : Step (State sys) (List sys.SshKey)
  unfolding between
  list = between (plain (codes "List")) (plain (codes "Listed")) (ask sys.list)

  unfoldable pub sign : sys.SshKey → Bytes → Step (State sys) Bytes
  unfolding between
  sign key b =
      between (of_key (codes "Sign") key) (of_key (codes "Signed") key) (ask (sys.sign key b))

  unfoldable pub sign_with_flags : sys.SshKey → Bytes → ℕ → Step (State sys) Bytes
  unfolding between
  sign_with_flags key b flags =
      between (of_key (codes "SignWithFlags") key) (of_key (codes "SignedWithFlags") key)
        (ask (sys.sign_with_flags key b flags))

  unfoldable pub add : Added sys → Step (State sys) Unit
  unfolding between
  add (private, comment) =
      between (of_private (codes "Add") private comment)
        (of_private (codes "Added") private comment) (act (sys.add private comment))

  unfoldable pub remove : sys.SshKey → Step (State sys) Unit
  unfolding between
  remove key =
      between (of_bytes (codes "Remove") (sys.marshal key))
        (of_bytes (codes "Removed") (sys.marshal key)) (act (sys.remove key))

  unfoldable pub remove_all : Step (State sys) Unit
  unfolding between
  remove_all = between (plain (codes "RemoveAll")) (plain (codes "RemovedAll")) (act sys.remove_all)

  unfoldable pub lock : Bytes → Step (State sys) Unit
  unfolding between
  lock passphrase =
      between (plain (codes "Lock")) (plain (codes "Locked")) (act (sys.lock passphrase))

  unfoldable pub unlock : Bytes → Step (State sys) Unit
  unfolding between
  unlock passphrase =
      between (plain (codes "UnLock")) (plain (codes "UnLocked")) (act (sys.unlock passphrase))

  -- It has one notice only.
  unfoldable pub extension : Text → Bytes → Step (State sys) Bytes
  unfolding notice
  extension name contents s =
      ask (sys.extension name contents) (notice (plain (codes "Extension")) s)

  unfoldable pub public_key_of : sys.SshKey → PublicKey
  public_key_of k = record {
    md5 = sys.fingerprint_md5 k;
    sha256 = sys.fingerprint_sha256 k;
    key_type = sys.type_of k;
    comment = sys.comment_of k;
    string = sys.string_of k;
  }

  unfoldable pub list_publickeys : Step (State sys) (List PublicKey)
  unfolding list public_key_of
  list_publickeys = list >>= λ keys. done (map public_key_of keys)

  abbrev pub holds : Text → List PublicKey → Bool
  holds sha256 [] = false
  holds sha256 (key ∷ keys) = if equal sha256 key.sha256 then true else holds sha256 keys

  -- `*addkey` of a nil pointer panics.
  unfoldable pub add_loaded : Option (Added sys) → Step (State sys) Unit
  unfolding add
  add_loaded none = fail panicked
  add_loaded (some key) = add key

  unfoldable pub add_result : Loaded sys → Step (State sys) Unit
  unfolding add_loaded
  add_result (err e) s = (s, err (failed e))
  add_result (ok (file, key)) s = add_loaded key s

  unfoldable pub add_file : Text → Text → Step (State sys) Unit
  unfolding add_result
  add_file path passphrase s = add_result (load_keyfile sys path passphrase s.world) s

  unfoldable pub load_and_add : PrivateKeyFile → Text → Step (State sys) Unit
  unfolding add_file
  load_and_add key id = ask (sys.secret_get id) >>= add_file key.file_path

  -- Behind the lookup of the key.
  unfoldable pub add_missing : Text → PrivateKeyFile → List PublicKey → Step (State sys) Unit
  unfolding load_and_add
  add_missing id key agent_keys =
      if holds key.public_key.sha256 agent_keys then done tt else load_and_add key id

  unfoldable pub add_found : Text → PrivateKeyFile → Step (State sys) Unit
  unfolding add_missing
  add_found id key = list_publickeys >>= add_missing id key

  unfoldable pub add_key : Text → Step (State sys) Unit
  unfolding add_found
  add_key id s = (given (find_id id s.save_data.keys) >>= add_found id) s

  -- The loop of `AddKeys` ends at the first error.
  add_each : List PrivateKeyFile → Step (State sys) Unit
  unfolding add_key
  add_each [] = done tt
  add_each (key ∷ keys) = add_key key.id >> add_each keys

  unfoldable pub add_keys : Step (State sys) Unit
  unfolding add_each
  add_keys s = add_each s.save_data.keys s

  -- The loop of `RemoveKey`: only the first key of the fingerprint is removed.
  unfoldable pub remove_first : Text → List sys.SshKey → Step (State sys) Unit
  unfolding remove
  remove_first sha256 [] = done tt
  remove_first sha256 (key ∷ keys) =
      if equal (sys.fingerprint_sha256 key) sha256
      then given (sys.parse_public_key (sys.marshal key)) >>= remove
      else remove_first sha256 keys

  unfoldable pub remove_key : Text → Step (State sys) Unit
  unfolding list remove_first
  remove_key sha256 = list >>= remove_first sha256
