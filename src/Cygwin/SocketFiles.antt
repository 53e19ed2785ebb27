-- ===== src/Cygwin/SocketFiles.antt =====
-- internal/interfaces/cygwin/cygwin_windows.go: `prepareExisting`, `writeFiles`,
-- `cleanup`, `removeFiles` and `processAlive`. The socket file stands at `path`, and its owner
-- marker beside it.
pub mod Stale
pub mod Written
use omni_sshagent.Base.{
  ℕ, Bool, true, false, not, ◌&&◌, ◌||◌, List, [], ◌∷◌, ◌++◌, Option, none, some, is_none,
  if◌then◌else◌, ℤ, pos, int_eq, is_positive, Result, ok, err,
}
use omni_sshagent.Base.Text.{Text, codes, equal}
use omni_sshagent.Base.Hex.{hex_encode}
use omni_sshagent.Files.{
  OsError, Bytes, Stat, regular, other_kind, not_exist, stat_failed, FileSystem,
}
use omni_sshagent.Cygwin.Atomic.{atomic_write}
use omni_sshagent.Cygwin.{socket_text, parse_socket_nonce}

-- `ownerMarker`
pub record Marker : Type 0 where
  pub version : ℤ
  pub application : Text
  pub pid : ℤ
  pub nonce : Text

abbrev pub application_name : Text
application_name = codes "OmniSSHAgent"

-- What `windows.OpenProcess` says of a process.
pub data Opened : Type 0 where
  opened invalid_parameter refused : Opened

-- Encoding/json for the marker, the text of a file's bytes, the processes, and this process.
pub record Host : Type 0 where
  pub marshal : Marker → Result OsError Bytes
  pub unmarshal : Bytes → Option Marker
  pub text_of : Bytes → Text
  pub open_process : ℤ → Opened
  pub own_pid : ℤ

pub data SocketError : Type 0 where
  not_both not_regular untrusted_marker nonce_mismatch : SocketError
  owner_running : ℤ → SocketError
  read_socket_failed read_marker_failed remove_failed : OsError → SocketError
  marshal_failed write_socket_failed write_marker_failed : OsError → SocketError
  encode_path_failed mark_failed : OsError → SocketError
  mkdir_failed listen_failed nonce_failed accept_failed : OsError → SocketError

abbrev pub owner_path : Text → Text
owner_path path = path ++ codes ".owner"

unfoldable pub process_alive : Host → ℤ → Bool
process_alive host pid =
    if not (is_positive pid)
    then false
    else elim (host.open_process pid) [ opened ↦ true | invalid_parameter ↦ false | refused ↦ true ]

abbrev pub own_marker : Host → Bytes → Marker
own_marker host nonce = record {
  version = pos 1;
  application = application_name;
  pid = host.own_pid;
  nonce = hex_encode nonce;
}

abbrev is_missing : Stat → Bool
is_missing not_exist = true
is_missing _ = false

abbrev is_found : Stat → Bool
is_found regular = true
is_found other_kind = true
is_found _ = false

abbrev is_regular : Stat → Bool
is_regular regular = true
is_regular _ = false

module _ (fs : FileSystem) (host : Host) (path : Text) where
  open fs use {
    World, stat, read_file, create_temp, chmod, write, close, rename, remove, is_not_exist,
    utf16_error, set_attributes, dir,
  }

  -- One round of the loop of `removeFiles`.
  unfoldable pub remove_one : Text → World → World × Option OsError
  remove_one p w =
      let w' : World = elim (utf16_error p) [ none ↦ (set_attributes p false w).0 | some _ ↦ w ] in
      let (w'', e) = remove p w' in
      (w'', elim e [ none ↦ none | some x ↦ if is_not_exist x then none else some x ])

  unfoldable pub remove_files : World → World × Option OsError
  remove_files w =
      let (w', e) = remove_one path w in
      elim e [ none ↦ remove_one (owner_path path) w' | some x ↦ (w', some x) ]

  nonce_matches : Marker → Option Bytes → Bool
  nonce_matches marker none = false
  nonce_matches marker (some nonce) = equal marker.nonce (hex_encode nonce)

  -- The checks on a marker that was decoded, and on the socket file's text.
  unfoldable pub check_marker : Text → Option Marker → Option SocketError
  unfolding nonce_matches
  check_marker socket none = some untrusted_marker
  check_marker socket (some marker) =
      if not (int_eq marker.version (pos 1)) || not (equal marker.application application_name)
      then some untrusted_marker
      else if not (nonce_matches marker (parse_socket_nonce socket))
      then some nonce_mismatch
      else if process_alive host marker.pid
      then some (owner_running marker.pid)
      else none

  check_data : Result OsError Bytes → Result OsError Bytes → Option SocketError
  check_data (err e) _ = some (read_socket_failed e)
  check_data (ok _) (err e) = some (read_marker_failed e)
  check_data (ok socket) (ok marker) = check_marker (host.text_of socket) (host.unmarshal marker)

  -- All that `prepareExisting` checks before it removes the files, where one of them exists. The
  -- second `os.Stat` of the socket file is taken to answer as the first.
  unfoldable pub check_existing : World → Option SocketError
  unfolding check_data
  check_existing w =
      if not (is_found (stat path w)) || not (is_found (stat (owner_path path) w))
      then some not_both
      else if not (is_regular (stat path w))
      then some not_regular
      else check_data (read_file path w) (read_file (owner_path path) w)

  remove_stale : World → World × Option SocketError
  remove_stale w =
      let (w', e) = remove_files w in (w', elim e [ none ↦ none | some x ↦ some (remove_failed x) ])

  unfoldable pub prepare_existing : World → World × Option SocketError
  unfolding remove_stale
  prepare_existing w =
      if is_missing (stat path w) && is_missing (stat (owner_path path) w)
      then (w, none)
      else elim (check_existing w) [ some e ↦ (w, some e) | none ↦ remove_stale w ]

  is_own : Bytes → Option Marker → Bool
  is_own nonce none = false
  is_own nonce (some marker) =
      equal marker.application application_name
      && int_eq marker.pid host.own_pid
      && equal marker.nonce (hex_encode nonce)

  unfoldable pub cleanup : Bytes → World → World
  unfolding is_own
  cleanup nonce w = elim (read_file (owner_path path) w) [
    | err _ ↦ w
    | ok bytes ↦ if is_own nonce (host.unmarshal bytes) then (remove_files w).0 else w
  ]

  -- Behind the two writes: a file that cannot be marked is taken away again.
  mark_socket : World → World × Option SocketError
  mark_socket w = elim (utf16_error path) [
    | some x ↦ ((remove_files w).0, some (encode_path_failed x))
    | none ↦
        let (w', e) = set_attributes path true w in
        elim e [ none ↦ (w', none) | some x ↦ ((remove_files w').0, some (mark_failed x)) ]
  ]

  -- `base` is `filepath.Base`, from which `os.CreateTemp` gets its pattern.
  module _ (base : Text → Text) where
    pattern_of : Text → Text
    pattern_of target = codes "." ++ (base target ++ codes ".*.tmp")

    write_marker : Bytes → World → World × Option SocketError
    unfolding mark_socket pattern_of
    write_marker bytes w =
        let (w', e) = atomic_write fs (pattern_of (owner_path path)) (owner_path path) bytes w in
        elim e [
          | none ↦ mark_socket w'
          | some x ↦ ((remove path w').0, some (write_marker_failed x))
        ]

    write_both : ℕ → Bytes → Bytes → World → World × Option SocketError
    unfolding write_marker pattern_of
    write_both port nonce bytes w =
        let (w', e) = atomic_write fs (pattern_of path) path (socket_text port nonce) w in
        elim e [ none ↦ write_marker bytes w' | some x ↦ (w', some (write_socket_failed x)) ]

    unfoldable pub write_files : ℕ → Bytes → World → World × Option SocketError
    unfolding write_both
    write_files port nonce w = elim (host.marshal (own_marker host nonce)) [
      | err x ↦ (w, some (marshal_failed x))
      | ok bytes ↦ write_both port nonce bytes w
    ]
