-- ===== src/KeyRing.antt =====
-- old/pkg/sshkey/sshkey.go and the types of old/pkg/store/store.go and old/pkg/sshutil/sshutil.go:
-- the former program's keys, its settings, and the code outside that they stand on.
pub mod Store
pub mod Settings
pub mod Load
pub mod Agent
pub mod Listing
pub mod App
use omni_sshagent.Base.{ℕ, Bool, List, [], ◌∷◌, Option, none, some, Result, ok, err}
use omni_sshagent.Base.Text.{Text}
use omni_sshagent.Files.{Bytes}

-- `sshkey.PublicKey`
pub record PublicKey : Type 0 where
  pub md5 : Text
  pub sha256 : Text
  pub key_type : Text
  pub comment : Text
  pub string : Text

abbrev pub no_public_key : PublicKey
no_public_key = record { md5 = []; sha256 = []; key_type = []; comment = []; string = [] }

pub record PrivateKeyFile : Type 0 where
  pub id : Text
  pub name : Text
  pub file_path : Text
  pub file_type : Text
  pub store_type : Text
  pub encryption : Bool
  pub passphrase : Text
  pub public_key : PublicKey

pub record SaveData : Type 0 where
  pub keys : List PrivateKeyFile
  pub start_hidden : Bool
  pub pageant_agent : Bool
  pub named_pipe_agent : Bool
  pub unix_socket_agent : Bool
  pub cyg_win_agent : Bool
  pub show_balloon : Bool
  pub unix_socket_path : Text
  pub cyg_win_socket_path : Text
  pub proxy_mode_of_named_pipe : Bool
  pub debug_log : Bool

-- `ssh.ParseRawPrivateKey`: a key, `*ssh.PassphraseMissingError`, or another error.
pub data Parsed (P : Type 0) : Type 0 where
  parsed : P → Parsed P
  passphrase_missing : Parsed P
  not_parsed : Text → Parsed P

-- What the code calls: golang.org/x/crypto/ssh and its agent, github.com/kayrus/putty, the store of
-- secrets, encoding/json, encoding/base64, github.com/google/uuid, package os. An error is its
-- message.
pub record System : Type 1 where
  pub World : Type 0
  -- `ssh.PublicKey`, of which `*agent.Key` is one, and a raw private key.
  pub SshKey : Type 0
  pub Private : Type 0
  pub Putty : Type 0
  pub fingerprint_md5 : SshKey → Text
  pub fingerprint_sha256 : SshKey → Text
  pub type_of : SshKey → Text
  pub comment_of : SshKey → Text
  pub string_of : SshKey → Text
  pub marshal : SshKey → Bytes
  pub parse_public_key : Bytes → Result Text SshKey
  pub base64 : Bytes → Text
  -- The public key of `ssh.NewSignerFromKey`.
  pub signer : Private → Result Text SshKey
  pub parse_private_key : Bytes → Parsed Private
  pub parse_with_passphrase : Bytes → Text → Result Text Private
  pub putty_from_file : Text → World → Result Text Putty
  pub putty_algo : Putty → Text
  pub putty_encryption : Putty → Text
  pub putty_comment : Putty → Text
  pub putty_private_key : Putty → Text → Result Text Private
  -- The agent that holds the keys: in memory, or behind the named pipe.
  pub list : World → World × Result Text (List SshKey)
  pub add : Private → Text → World → World × Option Text
  pub remove : SshKey → World → World × Option Text
  pub remove_all : World → World × Option Text
  pub lock : Bytes → World → World × Option Text
  pub unlock : Bytes → World → World × Option Text
  pub sign : SshKey → Bytes → World → World × Result Text Bytes
  pub sign_with_flags : SshKey → Bytes → ℕ → World → World × Result Text Bytes
  pub extension : Text → Bytes → World → World × Result Text Bytes
  pub secret_get : Text → World → World × Result Text Text
  pub secret_set : Text → Text → World → World × Option Text
  pub secret_remove : Text → World → World × Option Text
  pub new_uuid : World → World × Result Text Text
  pub to_json : SaveData → Result Text Bytes
  pub from_json : Bytes → Result Text SaveData
  pub user_config_dir : World → Result Text Text
  -- Empty where `os.UserHomeDir` fails.
  pub user_home_dir : World → Text
  pub join : Text → Text → Text
  pub base : Text → Text
  -- `os.Stat`, and whether it is a directory.
  pub stat_is_dir : Text → World → Option Bool
  pub mkdir_all : Text → World → World × Option Text
  pub read_file : Text → World → Result Text Bytes
  pub write_file : Text → Bytes → World → World × Option Text

-- What `NotifyCallback` is called with; each call runs in a goroutine of its own.
pub data Notice (sys : System) : Type 0 where
  plain : Text → Notice sys
  of_key : Text → sys.SshKey → Notice sys
  of_private : Text → sys.Private → Text → Notice sys
  of_bytes : Text → Bytes → Notice sys

-- `KeyRing` with its `store.Settings`, and the world around.
pub record State (sys : System) : Type 0 where
  pub app_name : Text
  pub save_data : SaveData
  pub has_callback : Bool
  pub notices : List (Notice sys)
  pub world : sys.World

-- An error that is returned, or a panic.
pub data Fault : Type 0 where
  failed : Text → Fault
  panicked : Fault

abbrev pub Step : Type 0 → Type 0 → Type 0
Step S A = S → S × Result Fault A

module _ {S : Type 0} where
  abbrev pub done : {A : Type 0} → A → Step S A
  done a s = (s, ok a)

  abbrev pub fail : {A : Type 0} → Fault → Step S A
  fail e s = (s, err e)

  -- `if err != nil { return err }` behind a call.
  infixl 5 ◌>>=◌
  abbrev pub ◌>>=◌ : {A B : Type 0} → Step S A → (A → Step S B) → Step S B
  ◌>>=◌ m f s = let (s', r) = m s in elim r [ ok a ↦ f a s' | err e ↦ (s', err e) ]

  infixl 5 ◌>>◌
  abbrev pub ◌>>◌ : {A B : Type 0} → Step S A → Step S B → Step S B
  m >> k = m >>= λ _. k

  -- A value or an error that is at hand.
  abbrev pub given : {A : Type 0} → Result Text A → Step S A
  given (ok a) s = (s, ok a)
  given (err e) s = (s, err (failed e))

abbrev pub outcome : Option Text → Result {0, 0} Fault Unit
outcome none = ok tt
outcome (some e) = err (failed e)

abbrev pub result : {A : Type 0} → Result Text A → Result Fault A
result (ok a) = ok a
result (err e) = err (failed e)

-- A call of the world; whether it fails, or what it gives.
module _ {sys : System} where
  abbrev pub act : (sys.World → sys.World × Option Text) → Step (State sys) Unit
  act f s = let (w, e) = f s.world in (record s { world = w }, outcome e)

  abbrev pub ask : {A : Type 0} → (sys.World → sys.World × Result Text A) → Step (State sys) A
  ask f s = let (w, r) = f s.world in (record s { world = w }, result r)

  abbrev pub set_keys : List PrivateKeyFile → Step (State sys) Unit
  set_keys keys s = (record s { save_data = record s.save_data { keys = keys } }, ok tt)
