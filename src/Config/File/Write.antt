-- ===== src/Config/File/Write.antt =====
-- What `write` of internal/config/defaults.go leaves at its path.
use omni_sshagent.Base.{[], Option, none, some, Result, ok, err, ◌≡◌, ◌≢◌, refl, ap, ◌∙◌, arith}
use omni_sshagent.Base.Text.{Text, codes}
use omni_sshagent.Files.{OsError, Bytes, FileSystem, IsLawful, content}
use omni_sshagent.Config.File.{
  FileError, install, close_install, sync_install, write_install, chmod_install, fill, write_file,
  temporary_failed,
}

-- What an attempt to replace `path` leaves: the new bytes, or on an error the old content.
abbrev pub Replaced :
    (fs : FileSystem) → Text → Option Bytes → Option Bytes → fs.World × Option FileError → Type 0
Replaced fs path old new (w, none) = content fs path w ≡ new
Replaced fs path old new (w, some _) = content fs path w ≡ old

-- No temporary file is given the name of `path`.
abbrev pub IsTarget : (fs : FileSystem) → Text → Type 0
IsTarget fs path = (d pattern : Text) (w : fs.World) → (fs.create_temp d pattern w).1 ≢ ok path

module _ (fs : FileSystem) (laws : IsLawful fs) (name path : Text) (fresh : name ≢ path) where
  open fs use {World}
  open laws use {
    chmod-content, write-other, write-self, sync-content, close-content, rename-self, rename-failed,
    remove-other,
  }

  install-Replaced :
      (w : World)
      → Replaced fs path (content fs path w) (content fs name w) (install fs name path w)
  unfolding install
  install-Replaced w = ground (arith, rename-self name path w, rename-failed name path path w)

  close_install-Replaced :
      (w : World)
      → Replaced fs path (content fs path w) (content fs name w) (close_install fs name path w)
  unfolding close_install
  close_install-Replaced w = ground (
    arith,
    install-Replaced (fs.close name w).0,
    close-content name path w,
    close-content name name w,
  )

  sync_install-Replaced :
      (w : World)
      → Replaced fs path (content fs path w) (content fs name w) (sync_install fs name path w)
  unfolding sync_install
  sync_install-Replaced w = ground (
    arith,
    close_install-Replaced (fs.sync name w).0,
    sync-content name path w,
    sync-content name name w,
    close-content name path (fs.sync name w).0,
  )

  write_install-Replaced :
      (bytes : Bytes) (w : World)
      → content fs name w ≡ some []
      → Replaced fs path (content fs path w) (some bytes) (write_install fs name bytes path w)
  unfolding write_install
  write_install-Replaced bytes w new =
      let v = (fs.write name bytes w).0 in
      ground (
        arith,
        sync_install-Replaced v,
        write-other name path bytes w fresh,
        write-self name [] bytes w,
        close-content name path v,
      )

  chmod_install-Replaced :
      (bytes : Bytes) (w : World)
      → content fs name w ≡ some []
      → Replaced fs path (content fs path w) (some bytes) (chmod_install fs name bytes path w)
  unfolding chmod_install
  chmod_install-Replaced bytes w new =
      let v = (fs.chmod name w).0 in
      ground (
        arith,
        write_install-Replaced bytes v,
        chmod-content name path w,
        chmod-content name name w,
        close-content name path v,
      )

  fill-Replaced :
      (bytes : Bytes) (w : World)
      → content fs name w ≡ some []
      → Replaced fs path (content fs path w) (some bytes) (fill fs name bytes path w)
  unfolding fill
  fill-Replaced bytes w new = ground (
    arith,
    chmod_install-Replaced bytes w new,
    remove-other name path (chmod_install fs name bytes path w).0 fresh,
  )

module _ (fs : FileSystem) (laws : IsLawful fs) (path : Text) (target : IsTarget fs path) where
  open fs use {World}
  open laws use {mkdir_all-content, create_temp-other, create_temp-self}

  after_create :
      (bytes : Bytes) (w : World) (r : Result OsError Text)
      → (fs.create_temp (fs.dir path) (codes ".config-*.tmp") w).1 ≡ r
      → Replaced fs path (content fs path w) (some bytes) (elim r [
        | err x ↦
            ((fs.create_temp (fs.dir path) (codes ".config-*.tmp") w).0, some (temporary_failed x))
        | ok name ↦
            fill fs name bytes path (fs.create_temp (fs.dir path) (codes ".config-*.tmp") w).0
      ])
  after_create bytes w (err x) e =
      create_temp-other (fs.dir path) (codes ".config-*.tmp") path w (target _ _ w)
  after_create bytes w (ok name) e =
      let fresh : name ≢ path = λ same. target _ _ w (e ∙ ap ok same) in
      rw (← create_temp-other (fs.dir path) (codes ".config-*.tmp") path w (target _ _ w)) (
        fill-Replaced fs laws name path fresh bytes _
          (create_temp-self (fs.dir path) (codes ".config-*.tmp") name w e))

  -- `write` is all or nothing, whichever call fails: without an error the file holds the new bytes,
  -- and with an error what it held before.
  pub write_file-Replaced :
      (bytes : Bytes) (w : World)
      → Replaced fs path (content fs path w) (some bytes) (write_file fs path bytes w)
  unfolding write_file
  write_file-Replaced bytes w = ground (
    arith,
    mkdir_all-content (fs.dir path) path w,
    after_create bytes (fs.mkdir_all (fs.dir path) w).0 _ refl,
  )
