-- ===== src/Tray/Keys.antt =====
-- internal/tray/keys_windows.go: the dialog that lists, adds and removes the agent's keys. Its list
-- box holds the labels of the rows; the calls of user32.dll that build it are not modelled.
pub mod Rows
use omni_sshagent.Base.{
  ℕ, suc, Bool, true, false, ◌||◌, List, [], ◌∷◌, ◌++◌, Option, none, some, Result, ok, err, ltb,
  ◌==◌, length, get_elem?, map, ℤ, pos, negsuc, if◌then◌else◌, ◌≡◌, refl,
}
use omni_sshagent.Base.Text.{Text, codes, is_empty, contains, trim_space}
use omni_sshagent.Files.{Bytes}
use omni_sshagent.KeyRing.{Parsed, parsed, passphrase_missing, not_parsed}

pub data KeysError : Type 0 where
  ppk_unsupported passphrase_required dialog_canceled no_selection : KeysError
  other : Text → KeysError

-- What the dialog calls: golang.org/x/crypto/ssh, the backend, package os, path/filepath, and the
-- dialogs that ask for a file and for a passphrase.
pub record Outside : Type 1 where
  pub World : Type 0
  pub SshKey : Type 0
  pub Private : Type 0
  pub type_of : SshKey → Text
  pub fingerprint_sha256 : SshKey → Text
  pub comment_of : SshKey → Text
  pub parse_private_key : Bytes → Parsed Private
  pub parse_with_passphrase : Bytes → Bytes → Result Text Private
  pub list : World → World × Result Text (List (Option SshKey))
  pub add : Private → Text → World → World × Option Text
  pub remove : Option SshKey → World → World × Option Text
  pub read_file : Text → World → Result Text Bytes
  -- `strings.EqualFold(filepath.Ext(path), ".ppk")`
  pub is_ppk : Text → Bool
  pub base : Text → Text
  pub pick_open_file : World → World × Option Text
  -- `promptPassphrase` with the name of the file; nothing if it is cancelled.
  pub prompt : Text → World → World × Option Bytes

-- `listAdd` of one label after the other: one that holds a NUL has no UTF-16 pointer, and is left out.
unfoldable pub added : List Text → List Text
added [] = []
added (label ∷ labels) = let rest = added labels in if contains label 0 then rest else label ∷ rest

module _ (out : Outside) where
  unfoldable pub parse_key : Bytes → Bytes → Result KeysError out.Private
  parse_key contents [] = elim (out.parse_private_key contents) [
    | parsed key ↦ ok key
    | passphrase_missing ↦ err passphrase_required
    | not_parsed e ↦ err (other e)
  ]
  parse_key contents (b ∷ passphrase) = elim (out.parse_with_passphrase contents (b ∷ passphrase)) [
    | ok key ↦ ok key
    | err e ↦ err (other e)
  ]

  -- A nil key has an empty label.
  unfoldable pub format_listed_key : Option out.SshKey → Text
  format_listed_key none = []
  format_listed_key (some key) =
      let text = out.type_of key ++ codes " " ++ out.fingerprint_sha256 key in
      let comment = trim_space (out.comment_of key) in
      if is_empty comment then text else text ++ codes " " ++ comment

  abbrev pub error_of : Option Text → Option KeysError
  error_of none = none
  error_of (some e) = some (other e)

  -- Behind the parsing.
  unfoldable pub add_parsed :
      Text → Result KeysError out.Private → out.World → out.World × Option KeysError
  add_parsed path (err e) w = (w, some e)
  add_parsed path (ok key) w = let (w', e) = out.add key (out.base path) w in (w', error_of e)

  unfoldable pub add_locked : Text → Bytes → out.World × Option Bytes → out.World × Option KeysError
  unfolding parse_key add_parsed
  add_locked path contents (w, none) = (w, some dialog_canceled)
  add_locked path contents (w, some passphrase) = add_parsed path (parse_key contents passphrase) w

  unfoldable pub add_contents : Text → Result Text Bytes → out.World → out.World × Option KeysError
  unfolding add_locked
  add_contents path (err e) w = (w, some (other e))
  add_contents path (ok contents) w = elim (parse_key contents []) [
    | err passphrase_required ↦ add_locked path contents (out.prompt (out.base path) w)
    | r ↦ add_parsed path r w
  ]

  -- `addKeyFromFile` with a backend and with `promptPassphrase` to ask.
  unfoldable pub add_key_from_file : Text → out.World → out.World × Option KeysError
  unfolding add_contents
  add_key_from_file path w =
      if out.is_ppk path
      then (w, some ppk_unsupported)
      else add_contents path (out.read_file path w) w

  -- `keysDialog`, with the rows of its list box and the errors that were shown.
  pub record Dialog : Type 0 where
    pub keys : List (Option out.SshKey)
    pub rows : List Text
    pub shown : List KeysError
    pub is_open : Bool
    pub world : out.World

  abbrev show : KeysError → Dialog → Dialog
  show e d = record d { shown = d.shown ++ e ∷ [] }

  -- `refresh`, with `showError` of what it returns.
  unfoldable pub refresh : Dialog → Dialog
  unfolding format_listed_key added
  refresh d =
      let (w, r) = out.list d.world in
      elim r [
        | err e ↦ show (other e) (record d { world = w })
        | ok keys ↦ record d { world = w; keys = keys; rows = added (map format_listed_key keys) }
      ]

  -- Behind `addKeyFromFile` or `Remove`.
  unfoldable pub settle : Option KeysError → Dialog → Dialog
  unfolding refresh
  settle none d = refresh d
  settle (some dialog_canceled) d = d
  settle (some e) d = show e d

  add_picked : out.World × Option Text → Dialog → Dialog
  unfolding settle add_key_from_file
  add_picked (w, none) d = record d { world = w }
  add_picked (w, some path) d =
      let (w', e) = add_key_from_file path w in settle e (record d { world = w' })

  -- `add` of the dialog.
  unfoldable pub add_key : Dialog → Dialog
  unfolding add_picked
  add_key d = add_picked (out.pick_open_file d.world) d

  unfoldable pub remove_at : Option (Option out.SshKey) → Dialog → Dialog
  unfolding settle
  remove_at none d = show no_selection d
  remove_at (some key) d =
      let (w, e) = out.remove key d.world in settle (error_of e) (record d { world = w })

  -- `remove` with the index of the selected row, which is negative if there is none.
  unfoldable pub remove_key : ℤ → Dialog → Dialog
  unfolding remove_at
  remove_key (negsuc n) d = show no_selection d
  remove_key (pos i) d = remove_at (get_elem? d.keys i) d

  -- The messages that the window procedure handles itself.
  pub data Message : Type 0 where
    add_clicked cancelled wm_close wm_destroy : Message
    remove_clicked : ℤ → Message

  -- `keysWindowProc`; `wmDestroy` is what destroying the window sends.
  unfoldable pub window_proc : Message → Dialog → Dialog
  unfolding add_key remove_key
  window_proc add_clicked d = add_key d
  window_proc (remove_clicked i) d = remove_key i d
  window_proc cancelled d = record d { is_open = false }
  window_proc wm_close d = record d { is_open = false }
  window_proc wm_destroy d = record d { is_open = false }
