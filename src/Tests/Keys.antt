-- ===== src/Tests/Keys.antt =====
-- The key ring of the former program on a small system, and the dialog of the keys.
use omni_sshagent.Base.{
  ℕ, get_elem?, true, false, List, [], ◌∷◌, ◌++◌, none, some, ok, err, map, ◌≡◌, refl, All, Option,
  Result, pos,
}
use omni_sshagent.Base.Text.{Text, codes, equal, contains, trim_space}
use omni_sshagent.Files.{Bytes}
use omni_sshagent.KeyRing.{
  PublicKey, no_public_key, PrivateKeyFile, SaveData, passphrase_missing, parsed, System, State,
}
use omni_sshagent.KeyRing.Store.{save, load, make_dir}
use omni_sshagent.KeyRing.Store.Reload.{Persists, load-save}
use omni_sshagent.KeyRing.Settings.{add_key_settings, delete_key_settings}
use omni_sshagent.KeyRing.Settings.Stored.{IsStripped, delete-add}
use omni_sshagent.KeyRing.Load.{load_keyfile}
use omni_sshagent.KeyRing.App.{App, save_settings, add_local_file}
use omni_sshagent.KeyRing.App.Saved.{Agrees, save_settings-Agrees, add_local_file-IsStripped}
use omni_sshagent.Tray.Keys.{
  added, format_listed_key, remove_at, remove_key, Outside, Dialog, add_clicked, window_proc,
}
use omni_sshagent.Tray.Keys.Rows.{
  IsText, answered, remove_selected, ShowsKeys, window_proc-ShowsKeys,
}

abbrev key_of : Text → Text → PrivateKeyFile
key_of sha256 passphrase = record {
  id = codes "k";
  name = [];
  file_path = codes "f";
  file_type = codes "OpenSSH";
  store_type = codes "LocalStore";
  encryption = true;
  passphrase = passphrase;
  public_key = record no_public_key { sha256 = sha256 };
}

-- What a file holds that was not written yet.
abbrev held : Option Bytes → Result Text Bytes
held none = ok (1 ∷ [])
held (some b) = ok b

abbrev settings_of : List PrivateKeyFile → SaveData
settings_of keys = record {
  keys = keys;
  start_hidden = false;
  pageant_agent = true;
  named_pipe_agent = true;
  unix_socket_agent = true;
  cyg_win_agent = true;
  show_balloon = true;
  unix_socket_path = [];
  cyg_win_socket_path = [];
  proxy_mode_of_named_pipe = false;
  debug_log = false;
}

-- Every file is an encrypted key in PEM; every stored secret is empty.
abbrev system : System
system = record {
  World = Option Bytes;
  SshKey = Text;
  Private = Text;
  Putty = Text;
  fingerprint_md5 = λ k. k;
  fingerprint_sha256 = λ k. k;
  type_of = λ k. codes "ssh-rsa";
  comment_of = λ k. [];
  string_of = λ k. k;
  marshal = λ k. k;
  parse_public_key = λ b. ok b;
  base64 = λ b. b;
  signer = λ p. ok p;
  parse_private_key = λ b. passphrase_missing;
  parse_with_passphrase = λ b p. ok b;
  putty_from_file = λ p w. err [];
  putty_algo = λ p. [];
  putty_encryption = λ p. [];
  putty_comment = λ p. [];
  putty_private_key = λ p b. err [];
  list = λ w. (w, ok []);
  add = λ p c w. (w, none);
  remove = λ k w. (w, none);
  remove_all = λ w. (w, none);
  lock = λ p w. (w, none);
  unlock = λ p w. (w, none);
  sign = λ k b w. (w, ok b);
  sign_with_flags = λ k b f w. (w, ok b);
  extension = λ n c w. (w, err []);
  secret_get = λ i w. (w, ok []);
  secret_set = λ i p w. (w, none);
  secret_remove = λ i w. (w, none);
  new_uuid = λ w. (w, ok (55 ∷ []));
  to_json = λ d. ok [];
  from_json = λ b. ok (settings_of []);
  user_config_dir = λ w. ok [];
  user_home_dir = λ w. [];
  join = λ a b. a ++ b;
  base = λ p. p;
  stat_is_dir = λ p w. none;
  mkdir_all = λ p w. (w, none);
  read_file = λ p w. held w;
  write_file = λ p b w. (some b, none);
}

abbrev with_keys : List PrivateKeyFile → State system
with_keys keys = record {
  app_name = codes "a";
  save_data = settings_of keys;
  has_callback = true;
  notices = [];
  world = none;
}

abbrev one_key : State system
one_key = with_keys (key_of (codes "A") [] ∷ [])

abbrev new_key : PrivateKeyFile
new_key = key_of (codes "B") (codes "secret")

other_key : equal (codes "A") (codes "B") ≡ false
unfolding equal
other_key = refl

delete-add_example :
    (delete_key_settings system
      (codes "B")
      (add_key_settings system new_key one_key).0).0.save_data.keys
    ≡ one_key.save_data.keys
delete-add_example = delete-add system new_key (55 ∷ []) one_key refl (other_key, tt)

add_local_file-IsStripped_example :
    All IsStripped (add_local_file system new_key one_key).0.save_data.keys
add_local_file-IsStripped_example = add_local_file-IsStripped system new_key one_key (refl, tt)

abbrev locked : PrivateKeyFile
locked = record (key_of [] []) { id = []; public_key = no_public_key }

locked_loads : load_keyfile system (codes "f") [] none ≡ ok (locked, none)
unfolding load_keyfile
locked_loads = refl

abbrev agent_keys : List PublicKey
agent_keys = record no_public_key { sha256 = codes "C" } ∷ []

abbrev app : App system
app = record {
  ring = one_key;
  log_enabled = false;
  debug_item = some true;
  dir_item = some true;
  balloons = [];
}

save_settings-Agrees_example :
    Agrees system true (save_settings system (record (settings_of []) { debug_log = true }) app).0
save_settings-Agrees_example =
    save_settings-Agrees system (record (settings_of []) { debug_log = true }) app refl

-- A file is always picked, and its key needs no passphrase.
abbrev outside : Outside
outside = record {
  World = ℕ;
  SshKey = Text;
  Private = Text;
  type_of = λ k. codes "ssh-rsa";
  fingerprint_sha256 = λ k. k;
  comment_of = λ k. [];
  parse_private_key = λ b. parsed b;
  parse_with_passphrase = λ b p. ok b;
  list = λ w. (w, ok (some (codes "A") ∷ none ∷ []));
  add = λ p c w. (w, none);
  remove = λ k w. (w, none);
  read_file = λ p w. ok (1 ∷ []);
  is_ppk = λ p. false;
  base = λ p. p;
  pick_open_file = λ w. (w, some (codes "f"));
  prompt = λ n w. (w, none);
}

abbrev dialog : Dialog outside
dialog = record { keys = []; rows = []; shown = []; is_open = true; world = 0 }

no_rows : ShowsKeys outside dialog
unfolding added
no_rows = refl

window_proc-ShowsKeys_example : ShowsKeys outside (window_proc outside add_clicked dialog)
window_proc-ShowsKeys_example = window_proc-ShowsKeys outside add_clicked dialog no_rows

system_persists : Persists system
system_persists = record {
  write-read = λ p b w e. refl;
  write-config_dir = λ p b w. refl;
  mkdir-config_dir = λ p w. refl;
}

saves : (save system (with_keys [])).1 ≡ ok tt
unfolding save make_dir
saves = refl

load-save_example :
    (load system (record (save system (with_keys [])).0 {
      save_data = settings_of (new_key ∷ []);
    })).0.save_data
    ≡ settings_of []
load-save_example =
    load-save system system_persists (with_keys []) (settings_of (new_key ∷ [])) [] refl refl saves

-- The dialog after it was opened: a key and a nil key.
abbrev two_rows : Dialog outside
two_rows = record dialog { keys = some (codes "A") ∷ none ∷ []; rows = codes "ssh-rsa A" ∷ [] ∷ [] }

two_labels : All IsText (map (format_listed_key outside) two_rows.keys)
unfolding format_listed_key contains trim_space
two_labels = (refl, (refl, tt))

two_shown : ShowsKeys outside two_rows
unfolding added format_listed_key contains trim_space
two_shown = refl

remove_selected_example :
    (k : Option Text) × (get_elem? two_rows.keys 0 ≡ some k)
    × (format_listed_key outside k ≡ codes "ssh-rsa A")
    × (remove_key outside (pos 0) two_rows
        ≡ answered outside (outside.remove k two_rows.world) two_rows)
remove_selected_example =
    remove_selected outside 0 (codes "ssh-rsa A") two_rows two_shown two_labels refl

-- A key whose label holds a NUL has no row: the first row is the second key's, and removing it
-- removes the first key.
abbrev hidden_row : Dialog outside
hidden_row = record dialog {
  keys = some (0 ∷ []) ∷ some (codes "B") ∷ [];
  rows = codes "ssh-rsa B" ∷ [];
}

hidden_shown : ShowsKeys outside hidden_row
unfolding added format_listed_key contains trim_space
hidden_shown = refl

hidden_removed :
    remove_key outside (pos 0) hidden_row ≡ remove_at outside (some (some (0 ∷ []))) hidden_row
unfolding remove_key
hidden_removed = refl
