-- ===== src/Cygwin/SocketFiles/Stale.antt =====
-- Which files `prepareExisting` and `cleanup` of internal/interfaces/cygwin/cygwin_windows.go take
-- away.
use omni_sshagent.Base.{
  false, Option, none, some, ◌≡◌, ◌≢◌, refl, arith, ℤ, pos, int_eq_iff, Result, ok, err, Bool-cases,
  Option-cases, inl, inr, ◌⊎◌, is_positive, Result-cases,
}
use omni_sshagent.Base.Text.{Text, equal_iff}
use omni_sshagent.Base.Hex.{hex_encode}
use omni_sshagent.Files.{OsError, Bytes, FileSystem, regular, not_exist}
use omni_sshagent.Cygwin.{parse_socket_nonce}
use omni_sshagent.Cygwin.SocketFiles.{
  Marker, Host, invalid_parameter, application_name, owner_path, process_alive, SocketError,
  check_existing, check_data, check_marker, is_own, prepare_existing, cleanup,
}

-- The owner of the files has ended: its number is no process's.
abbrev pub HasEnded : Host → ℤ → Type 0
HasEnded host pid = (is_positive pid ≡ false) ⊎ (host.open_process pid ≡ invalid_parameter)

process_alive-HasEnded :
    (host : Host) (pid : ℤ) → process_alive host pid ≡ false → HasEnded host pid
unfolding process_alive
process_alive-HasEnded host pid h = ground arith

module _ (fs : FileSystem) (host : Host) (path : Text) where
  open fs use {World}

  -- Two files that an earlier run of the application has left behind: both are there, the marker
  -- names the application, both hold the same nonce, and the process of the marker has ended.
  pub record IsStale (w : World) : Type 0 where
    pub socket : Bytes
    pub owner : Bytes
    pub marker : Marker
    pub nonce : Bytes
    pub is_file : fs.stat path w ≡ regular
    pub socket_read : fs.read_file path w ≡ ok socket
    pub owner_read : fs.read_file (owner_path path) w ≡ ok owner
    pub decoded : host.unmarshal owner ≡ some marker
    pub is_version_1 : marker.version ≡ pos 1
    pub is_ours : marker.application ≡ application_name
    pub parsed : parse_socket_nonce (host.text_of socket) ≡ some nonce
    pub same_nonce : marker.nonce ≡ hex_encode nonce
    pub has_ended : HasEnded host marker.pid

  -- A marker that passes the checks, with the socket file's nonce.
  MarkerOk : Text → Option Marker → Type 0
  MarkerOk socket o =
      (marker : Marker) × (nonce : Bytes) × (o ≡ some marker)
      × (parse_socket_nonce socket ≡ some nonce)
      × (marker.version ≡ pos 1)
      × (marker.application ≡ application_name)
      × (marker.nonce ≡ hex_encode nonce)
      × (process_alive host marker.pid ≡ false)

  check_marker-MarkerOk :
      (socket : Text) (o : Option Marker)
      → check_marker fs host path socket o ≡ none
      → MarkerOk socket o
  unfolding check_marker MarkerOk
  check_marker-MarkerOk socket none h = cc
  check_marker-MarkerOk socket (some marker) h = elim (Option-cases (parse_socket_nonce socket)) [
    | inl e ↦ absurd (ground (arith, e))
    | inr (nonce, e) ↦ (
      marker,
      nonce,
      refl,
      e,
      ground (arith, int_eq_iff marker.version (pos 1), e),
      ground (arith, equal_iff marker.application application_name, e),
      ground (arith, equal_iff marker.nonce (hex_encode nonce), e),
      ground (arith, e),
    )
  ]

  check_data-ok :
      (s o : Result OsError Bytes)
      → check_data fs host path s o ≡ none
      → (socket : Bytes) × (owner : Bytes) × (s ≡ ok socket)
        × (o ≡ ok owner)
        × (check_marker fs host path (host.text_of socket) (host.unmarshal owner) ≡ none)
  unfolding check_data
  check_data-ok (ok socket) (ok owner) h = (socket, owner, refl, refl, h)
  check_data-ok (ok socket) (err e) h = cc
  check_data-ok (err e) o h = cc

  check_existing-IsStale : (w : World) → check_existing fs host path w ≡ none → IsStale w
  unfolding check_existing MarkerOk
  check_existing-IsStale w h =
      let (socket, owner, s, o, c) =
        check_data-ok (fs.read_file path w) (fs.read_file (owner_path path) w) (ground arith) in
      let (marker, nonce, d, p, v, a, n, alive) =
        check_marker-MarkerOk (host.text_of socket) (host.unmarshal owner) c in
      record {
        socket = socket;
        owner = owner;
        marker = marker;
        nonce = nonce;
        is_file = ground arith;
        socket_read = s;
        owner_read = o;
        decoded = d;
        is_version_1 = v;
        is_ours = a;
        parsed = p;
        same_nonce = n;
        has_ended = process_alive-HasEnded host marker.pid alive;
      }

  -- One of the two files may exist.
  abbrev pub Found : World → Type 0
  Found w = (fs.stat path w ≢ not_exist) ⊎ (fs.stat (owner_path path) w ≢ not_exist)

  prepare_existing_keeps :
      (w : World) {x : SocketError}
      → check_existing fs host path w ≡ some x
      → ((prepare_existing fs host path w ≡ (w, none))
          × (fs.stat path w ≡ not_exist)
          × (fs.stat (owner_path path) w ≡ not_exist))
        ⊎ ((prepare_existing fs host path w ≡ (w, some x)) × Found w)
  unfolding prepare_existing
  prepare_existing_keeps w {x} h = ground arith

  -- `prepareExisting` changes no file unless both files are left from an earlier run of the
  -- application whose process has ended. In every other case it succeeds where neither file exists,
  -- and where one does, or may do, it fails.
  pub prepare_existing-IsStale :
      (w : World)
      → IsStale w
        ⊎ ((prepare_existing fs host path w ≡ (w, none))
            × (fs.stat path w ≡ not_exist)
            × (fs.stat (owner_path path) w ≡ not_exist))
        ⊎ ((e : SocketError) × (prepare_existing fs host path w ≡ (w, some e)) × Found w)
  prepare_existing-IsStale w = elim (Option-cases (check_existing fs host path w)) [
    | inl e ↦ inl (check_existing-IsStale w e)
    | inr (x, e) ↦ elim (prepare_existing_keeps w e) [
      | inl same ↦ inr (inl same)
      | inr failed ↦ inr (inr (x, failed.0, failed.1))
    ]
  ]

  -- `cleanup` takes the files away only if the marker that stands there names this application,
  -- this process and this run's nonce; otherwise it changes nothing.
  pub cleanup_own :
      (nonce : Bytes) (w : World)
      → ((owner : Bytes) × (marker : Marker) × (fs.read_file (owner_path path) w ≡ ok owner)
          × (host.unmarshal owner ≡ some marker)
          × (marker.application ≡ application_name)
          × (marker.pid ≡ host.own_pid)
          × (marker.nonce ≡ hex_encode nonce))
        ⊎ (cleanup fs host path nonce w ≡ w)
  unfolding cleanup
  cleanup_own nonce w = elim (Result-cases (fs.read_file (owner_path path) w)) [
    | inr (x, e) ↦ inr (ground (arith, e))
    | inl (owner, e) ↦ elim (Option-cases (host.unmarshal owner)) [
      | inl d ↦ inr (ground (arith, e, d))
      | inr (marker, d) ↦ elim (Bool-cases (is_own fs host path nonce (some marker))) [
        | inr other ↦ inr (ground (arith, e, d))
        | inl own ↦ inl (
          owner,
          marker,
          e,
          d,
          ground (arith, equal_iff marker.application application_name),
          ground (arith, int_eq_iff marker.pid host.own_pid),
          ground (arith, equal_iff marker.nonce (hex_encode nonce)),
        )
      ]
    ]
  ]
