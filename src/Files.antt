-- ===== src/Files.antt =====
-- The file operations of package os that internal/config and internal/interfaces/cygwin call, as a
-- parameter, and what is relied on of them.
pub mod Memory
use omni_sshagent.Base.{
  Bool, true, List, [], ◌++◌, Option, none, some, ◌≡◌, ◌≢◌, ℕ, Result, ok, err,
}
use omni_sshagent.Base.Text.{Text}

-- An `error` of the operating system, by its message.
abbrev pub OsError : Type 0
OsError = Text

abbrev pub Bytes : Type 0
Bytes = List ℕ

-- `os.Stat`: a regular file, something else, `os.ErrNotExist`, or another error.
pub data Stat : Type 0 where
  regular other_kind not_exist : Stat
  stat_failed : OsError → Stat

pub record FileSystem : Type 1 where
  pub World : Type 0
  pub stat : Text → World → Stat
  pub read_file : Text → World → Result OsError Bytes
  pub mkdir_all : Text → World → World × Option OsError
  -- `os.CreateTemp dir pattern`: the name of the new, empty file.
  pub create_temp : Text → Text → World → World × Result OsError Text
  pub chmod : Text → World → World × Option OsError
  pub write : Text → Bytes → World → World × Option OsError
  pub sync : Text → World → World × Option OsError
  pub close : Text → World → World × Option OsError
  pub rename : Text → Text → World → World × Option OsError
  pub remove : Text → World → World × Option OsError
  -- `errors.Is(err, os.ErrNotExist)`
  pub is_not_exist : OsError → Bool
  -- `windows.UTF16PtrFromString` fails on some texts.
  pub utf16_error : Text → Option OsError
  -- `windows.SetFileAttributes`; the flag stands for `SYSTEM|READONLY`, else it is `NORMAL`.
  pub set_attributes : Text → Bool → World → World × Option OsError
  pub dir : Text → Text

-- What a path holds: the bytes, or nothing that can be read.
unfoldable pub content : (fs : FileSystem) → Text → fs.World → Option Bytes
content fs path w = elim (fs.read_file path w) [ ok b ↦ some b | err _ ↦ none ]

-- An operation that concerns one path leaves the others as they are; one that fails installs
-- nothing; one that succeeds has done what its documentation says.
pub record IsLawful (fs : FileSystem) : Type 0 where
  pub mkdir_all-content :
      (d p : Text) (w : fs.World) → content fs p (fs.mkdir_all d w).0 ≡ content fs p w
  pub create_temp-other :
      (d pattern p : Text) (w : fs.World)
      → (fs.create_temp d pattern w).1 ≢ ok p
      → content fs p (fs.create_temp d pattern w).0 ≡ content fs p w
  pub create_temp-self :
      (d pattern n : Text) (w : fs.World)
      → (fs.create_temp d pattern w).1 ≡ ok n
      → content fs n (fs.create_temp d pattern w).0 ≡ some []
  pub chmod-content : (n p : Text) (w : fs.World) → content fs p (fs.chmod n w).0 ≡ content fs p w
  pub write-other :
      (n p : Text) (b : Bytes) (w : fs.World)
      → n ≢ p
      → content fs p (fs.write n b w).0 ≡ content fs p w
  pub write-self :
      (n : Text) (old b : Bytes) (w : fs.World)
      → (fs.write n b w).1 ≡ none
      → content fs n w ≡ some old
      → content fs n (fs.write n b w).0 ≡ some (old ++ b)
  pub sync-content : (n p : Text) (w : fs.World) → content fs p (fs.sync n w).0 ≡ content fs p w
  pub close-content : (n p : Text) (w : fs.World) → content fs p (fs.close n w).0 ≡ content fs p w
  pub rename-self :
      (n p : Text) (w : fs.World)
      → (fs.rename n p w).1 ≡ none
      → content fs p (fs.rename n p w).0 ≡ content fs n w
  pub rename-failed :
      (n p q : Text) (w : fs.World)
      → (fs.rename n p w).1 ≢ none
      → content fs q (fs.rename n p w).0 ≡ content fs q w
  pub rename-other :
      (n p q : Text) (w : fs.World)
      → n ≢ q
      → p ≢ q
      → content fs q (fs.rename n p w).0 ≡ content fs q w
  pub set_attributes-content :
      (n p : Text) (b : Bool) (w : fs.World)
      → content fs p (fs.set_attributes n b w).0 ≡ content fs p w
  pub remove-done :
      (n : Text) (w : fs.World) → (fs.remove n w).1 ≡ none → content fs n (fs.remove n w).0 ≡ none
  pub remove-missing :
      (n : Text) (w : fs.World) {e : OsError}
      → (fs.remove n w).1 ≡ some e
      → fs.is_not_exist e ≡ true
      → content fs n (fs.remove n w).0 ≡ none
  pub remove-other :
      (n p : Text) (w : fs.World) → n ≢ p → content fs p (fs.remove n w).0 ≡ content fs p w
  pub stat-content : (p : Text) (w : fs.World) → fs.stat p w ≡ not_exist → content fs p w ≡ none
