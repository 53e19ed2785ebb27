-- ===== src/Cygwin/SocketFiles/Written.antt =====
-- What `writeFiles` of internal/interfaces/cygwin/cygwin_windows.go leaves.
use omni_sshagent.Base.{ℕ, true, ◌++◌, none, some, ◌≡◌, ◌≢◌, sym, arith, ok, Result-cases, inl, inr}
use omni_sshagent.Base.Text.{Text, codes}
use omni_sshagent.Files.{Bytes, FileSystem, IsLawful, content}
use omni_sshagent.Cygwin.{socket_text}
use omni_sshagent.Cygwin.Atomic.{atomic_write}
use omni_sshagent.Cygwin.Atomic.Laws.{IsTarget, atomic_write-Wrote}
use omni_sshagent.Cygwin.SocketFiles.{
  Host, owner_path, mark_socket, write_marker, write_both, write_files, own_marker,
}

module _ (fs : FileSystem) (laws : IsLawful fs) (host : Host) (path : Text) (base : Text → Text)
    (is_target : IsTarget fs path) (is_owner : IsTarget fs (owner_path path))
    (other : path ≢ owner_path path) where
  open fs use {World}

  mark_socket_keeps :
      (w : World) (p : Text)
      → (mark_socket fs host path w).1 ≡ none
      → content fs p (mark_socket fs host path w).0 ≡ content fs p w
  unfolding mark_socket
  mark_socket_keeps w p h = ground (arith, laws.set_attributes-content path p true w)

  write_marker_writes :
      (bytes : Bytes) (w : World)
      → (write_marker fs host path base bytes w).1 ≡ none
      → (content fs path (write_marker fs host path base bytes w).0 ≡ content fs path w)
        × (content fs (owner_path path) (write_marker fs host path base bytes w).0 ≡ some bytes)
  unfolding write_marker
  write_marker_writes bytes w h =
      let pattern = codes "." ++ (base (owner_path path) ++ codes ".*.tmp") in
      let v = (atomic_write fs pattern (owner_path path) bytes w).0 in
      ground (
        arith,
        atomic_write-Wrote fs laws (owner_path path) path is_owner is_target (λ e. other (sym e))
            pattern bytes w,
        mark_socket_keeps v path,
        mark_socket_keeps v (owner_path path),
      )

  write_both_writes :
      (port : ℕ) (nonce bytes : Bytes) (w : World)
      → (write_both fs host path base port nonce bytes w).1 ≡ none
      → (content fs path (write_both fs host path base port nonce bytes w).0
          ≡ some (socket_text port nonce))
        × (content fs (owner_path path) (write_both fs host path base port nonce bytes w).0
            ≡ some bytes)
  unfolding write_both
  write_both_writes port nonce bytes w h =
      let pattern = codes "." ++ (base path ++ codes ".*.tmp") in
      let v = (atomic_write fs pattern path (socket_text port nonce) w).0 in
      ground (
        arith,
        atomic_write-Wrote fs laws path (owner_path path) is_target is_owner other pattern
            (socket_text port nonce) w,
        write_marker_writes bytes v,
      )

  -- When `writeFiles` succeeds, the socket file holds the port and the nonce, and the owner file
  -- the marker of this process with the same nonce, as JSON encodes it.
  pub write_files_writes :
      (port : ℕ) (nonce : Bytes) (w : World)
      → (write_files fs host path base port nonce w).1 ≡ none
      → (bytes : Bytes) × (host.marshal (own_marker host nonce) ≡ ok bytes)
        × (content fs path (write_files fs host path base port nonce w).0
            ≡ some (socket_text port nonce))
        × (content fs (owner_path path) (write_files fs host path base port nonce w).0 ≡ some bytes)
  unfolding write_files
  write_files_writes port nonce w h = elim (Result-cases (host.marshal (own_marker host nonce))) [
    | inl (bytes, e) ↦ (
      bytes,
      e,
      ground (arith, e, write_both_writes port nonce bytes w),
      ground (arith, e, write_both_writes port nonce bytes w),
    )
    | inr (x, e) ↦ absurd (ground (arith, e))
  ]
