-- ===== src/KeyRing/App.antt =====
-- old/app.go: what the former program's window calls, the settings it saves, and the menu items that
-- show whether the log is written. `settings` is set before the program starts.
pub mod Saved
use omni_sshagent.Base.{
  ℕ, ◌+◌, ◌≤◌, Bool, true, false, not, List, [], ◌∷◌, ◌++◌, Option, none, some, Result, ok, err,
  leb, length, take, if◌then◌else◌, ◌≡◌, ◌≢◌, refl, ap, ◌∙◌, arith, length-append, length-take,
  Bool-cases, Result-cases, inl, inr,
}
use omni_sshagent.Base.Text.{Text, codes, equal, equal_iff, is_empty}
use omni_sshagent.KeyRing.{
  PrivateKeyFile, SaveData, System, State, Fault, failed, panicked, Step, done, fail, ◌>>=◌, ◌>>◌,
}
use omni_sshagent.KeyRing.Store.{save}
use omni_sshagent.KeyRing.Settings.{add_key_settings, delete_key_settings}
use omni_sshagent.KeyRing.Load.{local_store}
use omni_sshagent.KeyRing.Agent.{add_key, remove_key}
use omni_sshagent.KeyRing.Listing.{find_priv_key}

-- Bytes of a fingerprint, which is ASCII.
unfoldable pub truncate_string : Text → Text
truncate_string s = if leb (length s) 16 then s else take 16 s ++ codes "..."

-- The agents that `startup` runs.
pub data Started : Type 0 where
  pageant : Started
  named_pipe : Started
  unix_socket : Text → Started
  cygwin : Text → Started

abbrev started_if : Bool → Started → List Started
started_if b a = if b then a ∷ [] else []

unfoldable pub started : SaveData → List Started
started d =
    started_if d.pageant_agent pageant
    ++ started_if d.named_pipe_agent named_pipe
    ++ started_if d.unix_socket_agent (unix_socket d.unix_socket_path)
    ++ started_if d.cyg_win_agent (cygwin d.cyg_win_socket_path)

module _ (sys : System) where
  -- A menu item is nil until the tray is ready; then it is checked, or enabled, or not.
  pub record App : Type 0 where
    pub ring : State sys
    pub log_enabled : Bool
    pub debug_item : Option Bool
    pub dir_item : Option Bool
    pub balloons : List Text

  abbrev pub set_item : Bool → Option Bool → Option Bool
  set_item b none = none
  set_item b (some old) = some b

  unfoldable pub apply_debug_log_menu_state : App → App
  apply_debug_log_menu_state a = elim a.debug_item [
    | none ↦ a
    | some old ↦ record a {
      debug_item = some a.log_enabled;
      dir_item = set_item a.log_enabled a.dir_item;
    }
  ]

  unfoldable pub set_debug_log_enabled : Bool → App → App
  unfolding apply_debug_log_menu_state
  set_debug_log_enabled enabled a = apply_debug_log_menu_state (record a {
    log_enabled = enabled;
    ring = record a.ring { save_data = record a.ring.save_data { debug_log = enabled } };
  })

  abbrev on_ring : {A : Type 0} → Step (State sys) A → Step App A
  on_ring step a = let (ring, r) = step a.ring in (record a { ring = ring }, r)

  -- `App.Save`; the keys and the flag of the log are not taken from `d` here.
  unfoldable pub save_settings : SaveData → Step App Unit
  unfolding set_debug_log_enabled
  save_settings d a =
      let b = set_debug_log_enabled d.debug_log a in
      let old = b.ring.save_data in
      on_ring (save sys) (record b {
        ring = record b.ring {
          save_data = record d { keys = old.keys; debug_log = old.debug_log };
        };
      })

  unfoldable pub add_local_file : PrivateKeyFile → Step (State sys) Unit
  add_local_file key =
      add_key_settings sys (record key { name = sys.base key.file_path; store_type = local_store })
      >>= add_key sys

  -- `DeleteKey`, with the answer of the dialog.
  unfoldable pub delete_key : Result Text Text → Text → Step (State sys) Unit
  delete_key (err e) sha256 s = (s, err (failed e))
  delete_key (ok answer) sha256 s =
      if not (equal answer (codes "Yes"))
      then (s, err (failed (codes "cancel")))
      else (remove_key sys sha256 >> delete_key_settings sys sha256) s

  used_name : PrivateKeyFile → Text
  unfolding truncate_string
  used_name key =
      if is_empty key.public_key.comment
      then truncate_string key.public_key.sha256
      else key.public_key.comment

  tell : Option PrivateKeyFile → Step App Unit
  unfolding used_name
  tell none a = (a, err (failed (codes "private key not found")))
  tell (some key) a =
      if a.ring.save_data.show_balloon
      then (
        record a {
          balloons = a.balloons ++ (codes "SSH Key '" ++ used_name key ++ codes "' was used") ∷ [];
        },
        ok tt,
      )
      else (a, ok tt)

  -- `onSign`
  unfoldable pub on_sign : sys.SshKey → Step App Unit
  unfolding tell
  on_sign key a = let (ring, k) = find_priv_key sys key a.ring in tell k (record a { ring = ring })

-- The text of a balloon has at most 19 bytes of a fingerprint.
pub length-truncate_string : (s : Text) → length (truncate_string s) ≤ 19
unfolding truncate_string
length-truncate_string s = ground (arith, length-append (take 16 s) (codes "..."), length-take 16 s)
