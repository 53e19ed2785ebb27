-- ===== src/Pageant/Request.antt =====
-- internal/interfaces/pageant/pageant_windows.go: `handle` and `windowProc`. The shared memory is the
-- list of its bytes; the calls of Windows are parameters.
pub mod Bounds
use omni_sshagent.Base.{
  ℕ, zero, suc, ◌+◌, ◌-◌, ◌*◌, Bool, true, false, not, ◌&&◌, ◌||◌, List, [], ◌∷◌, ◌++◌, Option,
  none, some, is_some, if◌then◌else◌, ltb, leb, ◌==◌, length, take, drop, get_or, Result, ok, err,
}
use omni_sshagent.Base.Text.{Text, codes, has_prefix}
use omni_sshagent.Files.{OsError, Bytes}
use omni_sshagent.Interfaces.{Served, served, end_of_file, serve_failed, is_failure}

abbrev pub copy_data_id : ℕ
copy_data_id = 0x804e50ba

abbrev pub max_message_len : ℕ
max_message_len = 262144

-- `copyDataStruct`
pub record CopyData : Type 0 where
  pub identifier : ℕ
  pub size : ℕ
  pub pointer : ℕ

pub data RequestError : Type 0 where
  invalid_identifier invalid_name not_terminated unexpected_name mapping_too_small : RequestError
  encode_failed open_failed map_failed query_failed : OsError → RequestError
  invalid_length : ℕ → RequestError
  invalid_response : RequestError

-- The memory of the sender, `UTF16PtrFromString`, and the agent: what `ServeAgent` returns for a
-- request, and what it has written then.
pub record System : Type 0 where
  pub memory_at : ℕ → ℕ → Bytes
  pub text_of : Bytes → Text
  pub utf16_error : Text → Option OsError
  pub serve_agent : Bytes → Served × Bytes

-- The name of the mapping, or why there is none.
unfoldable pub mapping_name : System → CopyData → Result RequestError Text
mapping_name sys data' =
    if ltb data'.size 2 || ltb 260 data'.size || data'.pointer == 0
    then err invalid_name
    else (let name_bytes = sys.memory_at data'.pointer data'.size in
        let name = sys.text_of (take (length name_bytes - 1) name_bytes) in
        if not (get_or name_bytes (length name_bytes - 1) 0 == 0)
        then err not_terminated
        else if not (has_prefix name (codes "PageantRequest"))
        then err unexpected_name
        else elim (sys.utf16_error name) [ none ↦ ok name | some e ↦ err (encode_failed e) ])

-- `binary.BigEndian.Uint32` of the first four bytes.
unfoldable pub big_endian : Bytes → ℕ
big_endian b = get_or b 0 0 * 16777216 + get_or b 1 0 * 65536 + get_or b 2 0 * 256 + get_or b 3 0

-- The request in a mapping: the length, and that many bytes.
unfoldable pub request_of : Bytes → Result RequestError Bytes
request_of mapped =
    let len = big_endian mapped in
    if ltb (length mapped) 4
    then err mapping_too_small
    else if leb len 0 || ltb max_message_len len || ltb (length mapped) (len + 4)
    then err (invalid_length len)
    else ok (take (len + 4) mapped)

-- A failure of the agent becomes the message `SSH_AGENT_FAILURE`.
unfoldable pub response_of : Served × Bytes → Bytes
response_of (r, response) = if is_failure r then 0 ∷ 0 ∷ 0 ∷ 1 ∷ 5 ∷ [] else response

-- `copy(mapped, response)`
unfoldable pub copy_onto : Bytes → Bytes → Bytes
copy_onto response mapped = response ++ drop (length response) mapped

unfoldable pub answer : System → Bytes → Bytes → Bytes × Option RequestError
answer sys mapped request =
    let response = response_of (sys.serve_agent request) in
    if ltb (length response) 5 || ltb (length mapped) (length response)
    then (mapped, some invalid_response)
    else (copy_onto response mapped, none)

unfoldable pub handle_mapped : System → Bytes → Bytes × Option RequestError
handle_mapped sys mapped = elim (request_of mapped) [
  | err e ↦ (mapped, some e)
  | ok r ↦ answer sys mapped r
]

-- The shared memory behind `OpenFileMappingW`, `MapViewOfFile` and `VirtualQuery`, by its name.
pub data View : Type 0 where
  not_opened not_mapped not_queried : OsError → View
  viewed : Bytes → View

handle_view : System → View → View × Option RequestError
handle_view sys (not_opened e) = (not_opened e, some (open_failed e))
handle_view sys (not_mapped e) = (not_mapped e, some (map_failed e))
handle_view sys (not_queried e) = (not_queried e, some (query_failed e))
handle_view sys (viewed mapped) = let (m, e) = handle_mapped sys mapped in (viewed m, e)

handle_named : System → (Text → View) → Result RequestError Text → View × Option RequestError
unfolding handle_view
handle_named sys views (err e) = (not_opened [], some e)
handle_named sys views (ok name) = handle_view sys (views name)

-- What stands in the mapping afterwards, and the error. Nothing is opened before the name is valid.
unfoldable pub handle : System → (Text → View) → Option CopyData → View × Option RequestError
unfolding handle_named
handle sys views none = (not_opened [], some invalid_identifier)
handle sys views (some data') =
    if not (data'.identifier == copy_data_id)
    then (not_opened [], some invalid_identifier)
    else handle_named sys views (mapping_name sys data')

abbrev pub wm_copy_data : ℕ
wm_copy_data = 0x004a

abbrev pub wm_destroy : ℕ
wm_destroy = 0x0002

-- How `windowProc` answers: by a number, or as `DefWindowProcW` does.
pub data Answer : Type 0 where
  result : ℕ → Answer
  default : Answer

-- `handle` runs only while a component is active; a panic in it is recovered, and the result is 0.
unfoldable pub window_proc : Bool → ℕ → Option (Option RequestError) → Answer
window_proc active msg handled =
    if active && msg == wm_copy_data
    then elim handled [ none ↦ result 0 | some e ↦ result (if is_some e then 0 else 1) ]
    else if msg == wm_destroy
    then result 0
    else default
