-- ===== src/Cygwin/Atomic.antt =====
-- internal/interfaces/cygwin/cygwin_windows.go: `atomicWrite`.
pub mod Laws
use omni_sshagent.Base.{Option, none, some, Result, ok, err}
use omni_sshagent.Base.Text.{Text}
use omni_sshagent.Files.{OsError, Bytes, FileSystem}

module _ (fs : FileSystem) where
  open fs use {World, create_temp, chmod, write, close, rename, remove, dir}

  -- `atomicWrite`, from the rename back. The deferred `os.Remove` of the temporary file comes last.
  unfoldable pub close_rename : Text → Text → World → World × Option OsError
  close_rename name target w =
      let (w', e) = close name w in elim e [ none ↦ rename name target w' | some x ↦ (w', some x) ]

  unfoldable pub write_rename : Text → Text → Bytes → World → World × Option OsError
  write_rename name target bytes w =
      let (w', e) = write name bytes w in
      elim e [ none ↦ close_rename name target w' | some x ↦ ((close name w').0, some x) ]

  unfoldable pub chmod_rename : Text → Text → Bytes → World → World × Option OsError
  chmod_rename name target bytes w =
      let (w', e) = chmod name w in
      elim e [ none ↦ write_rename name target bytes w' | some x ↦ ((close name w').0, some x) ]

  unfoldable pub fill_temp : Text → Bytes → World × Result OsError Text → World × Option OsError
  fill_temp target bytes (w, err x) = (w, some x)
  fill_temp target bytes (w, ok name) =
      let (w', e) = chmod_rename name target bytes w in ((remove name w').0, e)

  unfoldable pub atomic_write : Text → Text → Bytes → World → World × Option OsError
  unfolding fill_temp
  atomic_write pattern target bytes w = fill_temp target bytes (create_temp (dir target) pattern w)
