-- ===== src/Legacy/Pageant.antt =====
-- old/pkg/pageant/pageant.go: `handleCopyMessage` and `wndProc` of the former Pageant window. The
-- sender's memory, the shared memory and the agent are those of the present window.
pub mod Same
pub mod Running
use omni_sshagent.Base.{
  ℕ, ◌+◌, ◌-◌, ◌^◌, ◌%◌, Bool, true, false, not, ◌&&◌, ◌||◌, [], ◌++◌, Option, none, some, is_some,
  if◌then◌else◌, ltb, leb, ◌==◌, length, take, drop,
}
use omni_sshagent.Base.Text.{Text}
use omni_sshagent.Base.Endian.{put_big_endian}
use omni_sshagent.Files.{OsError, Bytes}
use omni_sshagent.Interfaces.{Error, Served, served, end_of_file, serve_failed}
use omni_sshagent.Pageant.Request.{
  System, CopyData, copy_data_id, big_endian, copy_onto, Answer, result, default, wm_copy_data,
}

-- `checkID`
abbrev pub check_id : ℕ
check_id = 0x02e08fc7

pub data FormerError : Type 0 where
  different_id not_open : FormerError
  map_failed : OsError → FormerError
  serve_error : Error → FormerError

-- `Pageant`: the name of the program, and whether there is a `CheckFunc`.
pub record App : Type 0 where
  pub name : Bytes
  pub has_check : Bool

-- The process faults, by a panic that nothing recovers or by an access behind the view; or it has
-- called `CheckFunc` or not, the view holds these bytes, and there is an error or none.
pub data Handled : Type 0 where
  faulted : Handled
  handled : Bool → Bytes → Option FormerError → Handled

-- The shared memory behind `OpenFileMappingW` and `MapViewOfFile`.
pub data FormerView : Type 0 where
  not_opened : FormerView
  not_mapped : OsError → FormerView
  viewed : Bytes → FormerView

-- `int(ln)+4` of the signed `ln`. A length below 0, which `ptr2Array` puts into the header of a
-- slice, leaves nothing to be read.
unfoldable pub request_size : ℕ → ℕ
request_size raw = if ltb raw (2 ^ 31) then raw + 4 else raw + 4 - 2 ^ 32

-- `copy` to a slice of the length of the response at the start of the view.
unfoldable pub copy_out : Bool → Bytes → Bytes → Handled
copy_out shown response mapped =
    if ltb (length mapped) (length response)
    then faulted
    else handled shown (copy_onto response mapped) none

unfoldable pub answer_check : App → Bytes → Handled
unfolding copy_out
answer_check app mapped =
    copy_out app.has_check (put_big_endian (length app.name) ++ app.name) mapped

-- What `ServeAgent` has returned and written; `io.EOF` is no error.
unfoldable pub answer_served : Served → Bytes → Bytes → Handled
unfolding copy_out
answer_served served response mapped = copy_out false response mapped
answer_served end_of_file response mapped = copy_out false response mapped
answer_served (serve_failed e) response mapped = handled false mapped (some (serve_error e))

-- `ServeAgent` reads the first bytes at once, so that a slice behind the view faults.
unfoldable pub answer_request : System → Bytes → Handled
unfolding answer_served request_size
answer_request sys mapped =
    let size = request_size (big_endian mapped) in
    let (r, response) = sys.serve_agent (take size mapped) in
    if ltb (length mapped) size then faulted else answer_served r response mapped

unfoldable pub handle_mapped : System → App → Bool → Bytes → Handled
unfolding answer_check answer_request
handle_mapped sys app check mapped =
    if ltb (length mapped) 4
    then faulted
    else if check
    then answer_check app mapped
    else answer_request sys mapped

unfoldable pub handle_view : System → App → Bool → FormerView → Handled
unfolding handle_mapped
handle_view sys app check not_opened = handled false [] (some not_open)
handle_view sys app check (not_mapped e) = handled false [] (some (map_failed e))
handle_view sys app check (viewed mapped) = handle_mapped sys app check mapped

-- `cbData-1` is that of `uint32`. `StringToUTF16Ptr` panics where `UTF16PtrFromString` has an error.
unfoldable pub handle_named : System → App → (Text → FormerView) → Bool → CopyData → Handled
unfolding handle_view
handle_named sys app views check data' =
    let size = (data'.size + 2 ^ 32 - 1) % 2 ^ 32 in
    let name = sys.text_of (sys.memory_at data'.pointer size) in
    if is_some (sys.utf16_error name) then faulted else handle_view sys app check (views name)

-- `handleCopyMessage`
unfoldable pub handle_copy_message : System → App → (Text → FormerView) → CopyData → Handled
unfolding handle_named
handle_copy_message sys app views data' =
    if data'.identifier == copy_data_id
    then handle_named sys app views false data'
    else if data'.identifier == check_id
    then handle_named sys app views true data'
    else handled false [] (some different_id)

-- `wndProc`, where `handleCopyMessage` returns.
unfoldable pub window_proc : ℕ → Option FormerError → Answer
window_proc msg e = if msg == wm_copy_data then result (if is_some e then 0 else 1) else default
