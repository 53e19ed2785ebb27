-- ===== src/Files/Memory.antt =====
-- A file system in memory, which meets what is relied on: a path holds bytes or nothing, and there
-- is one name for temporary files.
use omni_sshagent.Base.{
  [], ◌++◌, Option, none, some, ◌≡◌, refl, arith, Result, ok, err, if◌then◌else◌,
}
use omni_sshagent.Base.Text.{Text, codes, equal, equal_iff}
use omni_sshagent.Files.{OsError, Bytes, Stat, regular, not_exist, FileSystem, IsLawful, content}

abbrev pub Disk : Type 0
Disk = Text → Option Bytes

abbrev pub temp_name : Text
temp_name = codes "C:\\.tmp"

abbrev pub put : Text → Option Bytes → Disk → Disk
put n v d p = if equal n p then v else d p

abbrev stat_of : Option Bytes → Stat
stat_of none = not_exist
stat_of (some _) = regular

abbrev read_of : Option Bytes → Result OsError Bytes
read_of none = err (codes "not found")
read_of (some b) = ok b

abbrev no_error : Disk → Disk × Option OsError
no_error d = (d, none)

abbrev append_to : Text → Bytes → Option Bytes → Disk → Disk × Option OsError
append_to n b none d = (d, some (codes "not found"))
append_to n b (some old) d = (put n (some (old ++ b)) d, none)

abbrev move : Text → Text → Option Bytes → Disk → Disk × Option OsError
move n p none d = (d, some (codes "not found"))
move n p (some b) d = (put p (some b) (put n none d), none)

abbrev remove_at : Text → Option Bytes → Disk → Disk × Option OsError
remove_at n none d = (d, some (codes "not found"))
remove_at n (some _) d = (put n none d, none)

abbrev create : Option Bytes → Disk → Disk × Result OsError Text
create none d = (put temp_name (some []) d, ok temp_name)
create (some _) d = (d, err (codes "exists"))

abbrev pub memory : FileSystem
memory = record {
  World = Disk;
  stat = λ p d. stat_of (d p);
  read_file = λ p d. read_of (d p);
  mkdir_all = λ p d. no_error d;
  create_temp = λ p pattern d. create (d temp_name) d;
  chmod = λ n d. no_error d;
  write = λ n b d. append_to n b (d n) d;
  sync = λ n d. no_error d;
  close = λ n d. no_error d;
  rename = λ n p d. move n p (d n) d;
  remove = λ n d. remove_at n (d n) d;
  is_not_exist = λ e. equal e (codes "not found");
  utf16_error = λ s. none;
  set_attributes = λ n s d. no_error d;
  dir = λ p. codes "C:";
}

memory_write_self :
    (n : Text) (old b : Bytes) (d : Disk)
    → (append_to n b (d n) d).1 ≡ none
    → content memory n d ≡ some old
    → content memory n (append_to n b (d n) d).0 ≡ some (old ++ b)
unfolding content
memory_write_self n old b d h k = ground (arith, equal_iff n n)

pub memory-IsLawful : IsLawful memory
unfolding content
memory-IsLawful = record {
  mkdir_all-content = λ d p w. refl;
  create_temp-other = λ d pattern p w h. ground (arith, equal_iff temp_name p);
  create_temp-self = λ d pattern n w h. ground (arith, equal_iff temp_name n);
  chmod-content = λ n p w. refl;
  write-other = λ n p b w h. ground (arith, equal_iff n p);
  write-self = memory_write_self;
  sync-content = λ n p w. refl;
  close-content = λ n p w. refl;
  rename-self = λ n p w h. ground (arith, equal_iff p p);
  rename-failed = λ n p q w h. ground arith;
  rename-other = λ n p q w h k. ground (arith, equal_iff n q, equal_iff p q);
  set_attributes-content = λ n p b w. refl;
  remove-done = λ n w h. ground (arith, equal_iff n n);
  remove-missing = λ n w {e} h k. ground arith;
  remove-other = λ n p w h. ground (arith, equal_iff n p);
  stat-content = λ p w h. ground arith;
}
