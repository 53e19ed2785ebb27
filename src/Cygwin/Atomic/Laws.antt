-- ===== src/Cygwin/Atomic/Laws.antt =====
-- What `atomicWrite` of internal/interfaces/cygwin/cygwin_windows.go leaves.
use omni_sshagent.Base.{[], Option, none, some, ◌≡◌, ◌≢◌, refl, ap, ◌∙◌, arith, Result, ok, err}
use omni_sshagent.Base.Text.{Text}
use omni_sshagent.Files.{OsError, Bytes, FileSystem, IsLawful, content}
use omni_sshagent.Cygwin.Atomic.{close_rename, write_rename, chmod_rename, fill_temp, atomic_write}

-- After an attempt to replace `target`, beside another path `q`.
abbrev pub Wrote :
    (fs : FileSystem)
    → Text
    → Text
    → Option Bytes
    → Option Bytes
    → Option Bytes
    → fs.World × Option OsError
    → Type 0
Wrote fs target q old new kept (w, none) = (content fs target w ≡ new) × (content fs q w ≡ kept)
Wrote fs target q old new kept (w, some _) = (content fs target w ≡ old) × (content fs q w ≡ kept)

module _ (fs : FileSystem) (laws : IsLawful fs) (name target q : Text) (fresh : name ≢ target)
    (apart : name ≢ q) (other : target ≢ q) where
  open fs use {World}
  open laws use {
    chmod-content, write-other, write-self, close-content, rename-self, rename-failed, rename-other,
    remove-other,
  }

  close_rename-Wrote :
      (w : World)
      → Wrote fs target q
          (content fs target w)
          (content fs name w)
          (content fs q w)
          (close_rename fs name target w)
  unfolding close_rename
  close_rename-Wrote w =
      let v = (fs.close name w).0 in
      ground (
        arith,
        rename-self name target v,
        rename-failed name target target v,
        rename-other name target q v apart other,
        close-content name target w,
        close-content name name w,
        close-content name q w,
      )

  write_rename-Wrote :
      (bytes : Bytes) (w : World)
      → content fs name w ≡ some []
      → Wrote fs target q
          (content fs target w)
          (some bytes)
          (content fs q w)
          (write_rename fs name target bytes w)
  unfolding write_rename
  write_rename-Wrote bytes w new =
      let v = (fs.write name bytes w).0 in
      ground (
        arith,
        close_rename-Wrote v,
        write-other name target bytes w fresh,
        write-other name q bytes w apart,
        write-self name [] bytes w,
        close-content name target v,
        close-content name q v,
      )

  chmod_rename-Wrote :
      (bytes : Bytes) (w : World)
      → content fs name w ≡ some []
      → Wrote fs target q
          (content fs target w)
          (some bytes)
          (content fs q w)
          (chmod_rename fs name target bytes w)
  unfolding chmod_rename
  chmod_rename-Wrote bytes w new =
      let v = (fs.chmod name w).0 in
      ground (
        arith,
        write_rename-Wrote bytes v,
        chmod-content name target w,
        chmod-content name name w,
        chmod-content name q w,
        close-content name target v,
        close-content name q v,
      )

  fill_temp-Wrote :
      (bytes : Bytes) (w : World)
      → content fs name w ≡ some []
      → Wrote fs target q
          (content fs target w)
          (some bytes)
          (content fs q w)
          (fill_temp fs target bytes (w, ok name))
  unfolding fill_temp
  fill_temp-Wrote bytes w new =
      let v = (chmod_rename fs name target bytes w).0 in
      ground (
        arith,
        chmod_rename-Wrote bytes w new,
        remove-other name target v fresh,
        remove-other name q v apart,
      )

-- No temporary file is given the name `path`.
abbrev pub IsTarget : (fs : FileSystem) → Text → Type 0
IsTarget fs path = (d pattern : Text) (w : fs.World) → (fs.create_temp d pattern w).1 ≢ ok path

module _ (fs : FileSystem) (laws : IsLawful fs) (target q : Text) (is_target : IsTarget fs target)
    (is_other : IsTarget fs q) (other : target ≢ q) where
  open fs use {World}

  created :
      (pattern : Text) (bytes : Bytes) (w : World) (r : Result OsError Text)
      → (fs.create_temp (fs.dir target) pattern w).1 ≡ r
      → Wrote fs target q
          (content fs target w)
          (some bytes)
          (content fs q w)
          (fill_temp fs target bytes ((fs.create_temp (fs.dir target) pattern w).0, r))
  created pattern bytes w (err x) e =
      unfold fill_temp in
      (
        laws.create_temp-other (fs.dir target) pattern target w (is_target _ _ w),
        laws.create_temp-other (fs.dir target) pattern q w (is_other _ _ w),
      )
  created pattern bytes w (ok name) e =
      rw
        (
          ← laws.create_temp-other (fs.dir target) pattern target w (is_target _ _ w),
          ← laws.create_temp-other (fs.dir target) pattern q w (is_other _ _ w),
        )
        (fill_temp-Wrote fs laws name target q (λ same. is_target _ _ w (e ∙ ap ok same))
          (λ same. is_other _ _ w (e ∙ ap ok same)) other bytes _
          (laws.create_temp-self (fs.dir target) pattern name w e))

  -- `atomicWrite` replaces its file as a whole or, on an error, leaves it as it was; another file
  -- is not touched.
  pub atomic_write-Wrote :
      (pattern : Text) (bytes : Bytes) (w : World)
      → Wrote fs target q
          (content fs target w)
          (some bytes)
          (content fs q w)
          (atomic_write fs pattern target bytes w)
  unfolding atomic_write
  atomic_write-Wrote pattern bytes w =
      created pattern bytes w (fs.create_temp (fs.dir target) pattern w).1 refl
