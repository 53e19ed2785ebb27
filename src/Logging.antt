-- ===== src/Logging.antt =====
-- internal/logging/logging.go: `DailyWriter`. The clock, `MkdirAll` and `OpenFile` answer each call.
use omni_sshagent.Base.{
  ℕ, ◌+◌, ◌-◌, Bool, true, false, not, [], Option, none, some, ◌≡◌, arith, if◌then◌else◌,
}
use omni_sshagent.Base.Text.{Text, equal, equal_iff}
use omni_sshagent.Files.{OsError}

-- The log file of a day; a write to a closed file fails.
pub record LogFile : Type 0 where
  pub day : Text
  pub is_open : Bool

-- `open_files` counts the files that the process holds open for this writer.
pub record Writer : Type 0 where
  pub date : Text
  pub file : Option LogFile
  pub open_files : ℕ

pub record Answers : Type 0 where
  pub today : Text
  pub mkdir : Option OsError
  pub open_file : Option OsError

-- Where the bytes of a `Write` went.
pub data Sink : Type 0 where
  to_file : Text → Sink
  to_fallback : Sink
  lost : Sink

unfoldable pub new_writer : Writer
new_writer = record { date = []; file = none; open_files = 0 }

-- `Close` of a file; of one that is closed it only returns an error.
close_file : LogFile → Writer → Writer
close_file f w = record w {
  file = some (record f { is_open = false });
  open_files = if f.is_open then w.open_files - 1 else w.open_files;
}

close_old : Option LogFile → Writer → Writer
unfolding close_file
close_old none w = w
close_old (some f) w = close_file f w

open_new : Answers → Writer → Writer × Sink
open_new a w = elim a.open_file [
  | some e ↦ (w, to_fallback)
  | none ↦ (
    record w {
      date = a.today;
      file = some (record { day = a.today; is_open = true });
      open_files = w.open_files + 1;
    },
    to_file a.today,
  )
]

rotate : Answers → Writer → Writer × Sink
unfolding close_old open_new
rotate a w =
    let w' = close_old w.file w in
    elim a.mkdir [ some e ↦ (w', to_fallback) | none ↦ open_new a w' ]

write_to : Option LogFile → Answers → Writer → Writer × Sink
unfolding rotate
write_to none a w = rotate a w
write_to (some f) a w =
    if not (equal a.today w.date)
    then rotate a w
    else (w, if f.is_open then to_file f.day else lost)

unfoldable pub write : Answers → Writer → Writer × Sink
unfolding write_to
write a w = write_to w.file a w

close_writer_file : Option LogFile → Writer → Writer
unfolding close_file
close_writer_file none w = w
close_writer_file (some f) w = record (close_file f w) { file = none }

unfoldable pub close : Writer → Writer
unfolding close_writer_file
close w = close_writer_file w.file w

-- An open file is that of the writer's date, and it is the only file that is open.
abbrev FileInv : Option LogFile → Text → ℕ → Type 0
FileInv none date n = n ≡ 0
FileInv (some f) date n = (f.day ≡ date) × (n ≡ (if f.is_open then 1 else 0))

unfoldable pub IsConsistent : Writer → Type 0
IsConsistent w = FileInv w.file w.date w.open_files

write_to-IsConsistent :
    (f : Option LogFile) (a : Answers) (date : Text) (n : ℕ)
    → FileInv f date n
    → IsConsistent (write_to f a (record { date = date; file = f; open_files = n })).0
unfolding write_to IsConsistent
write_to-IsConsistent none a date n h = ground arith
write_to-IsConsistent (some f) a date n h = ground arith

-- Every write and every close keeps one file open at most, the one of the writer's date: no file
-- is left open when the day changes.
pub write-IsConsistent :
    (a : Answers) (w : Writer)
    → IsConsistent w
    → IsConsistent (write a w).0 × IsConsistent (close w)
unfolding write IsConsistent close
write-IsConsistent a w h = ground arith

-- Bytes that reach a log file reach the one of the day on which they were written.
pub write-today :
    (a : Answers) (w : Writer) {day : Text}
    → IsConsistent w
    → (write a w).1 ≡ to_file day
    → day ≡ a.today
unfolding write IsConsistent
write-today a w h k = ground (arith, equal_iff a.today w.date)

-- After a day's change at which the directory or the new file could not be had, the closed file
-- stays in place: a write whose clock shows the former day again is lost.
pub write_after_failed_rotation :
    (a b : Answers) (w : Writer) {f : LogFile}
    → w.file ≡ some f
    → equal a.today w.date ≡ false
    → (write a w).1 ≡ to_fallback
    → b.today ≡ w.date
    → (write b (write a w).0).1 ≡ lost
unfolding write
write_after_failed_rotation a b w {f} h new failed_ back = ground (arith, equal_iff b.today w.date)
