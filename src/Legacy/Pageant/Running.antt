-- ===== src/Legacy/Pageant/Running.antt =====
-- old/pkg/pageant/client.go and `checkAlreadyRunning` of old/main.go: a starting program asks the
-- window of a running one for its name.
use omni_sshagent.Base.{
  ℕ, ◌+◌, ◌-◌, ◌≤◌, ◌<◌, ◌^◌, ◌%◌, Bool, true, false, not, [], ◌∷◌, ◌++◌, Option, none, some, ◌≡◌,
  refl, arith, if◌then◌else◌, ltb, ◌==◌, length, take, drop, length-append, length-drop, Result, ok,
  err,
}
use mathlib.Core.List.{append_assoc}
use omni_sshagent.Base.Text.{Text, equal, equal_refl}
use omni_sshagent.Base.Endian.{put_big_endian, take-append}
use omni_sshagent.Files.{OsError, Bytes}
use omni_sshagent.Pageant.Request.{
  System, CopyData, big_endian, copy_onto, Answer, result, default, wm_copy_data,
}
use omni_sshagent.Legacy.Pageant
use omni_sshagent.Legacy.Pageant.{
  App, Handled, faulted, handled, FormerView, check_id, handle_copy_message, handle_named,
  answer_check, copy_out,
}

-- `MaxMessageLen`
abbrev pub max_message_len : ℕ
max_message_len = 8192

pub data ClientError : Type 0 where
  not_found send_failed : ClientError
  mapping_error : OsError → ClientError

-- What Windows answers: whether there is a window, the errors of `CreateFileMapping` and
-- `MapViewOfFile`, the name of the mapping, where that name stands in the memory of this process,
-- the fresh view, and the message, which returns a number and leaves the view as the window left it.
pub record Client : Type 0 where
  pub window_found : Bool
  pub create_mapping : Option OsError
  pub map_view : Option OsError
  pub map_name : Text
  pub pointer : ℕ
  pub fresh : Bytes
  pub send_message : CopyData → Bytes → ℕ × Bytes

-- `mkMsg`
unfoldable pub make_message : Bytes → Bytes
make_message request = put_big_endian (length request) ++ request

unfoldable pub read_answer : ℕ × Bytes → Result ClientError Bytes
read_answer (reply, view) =
    if reply == 0
    then err send_failed
    else if ltb (max_message_len - 4) (big_endian view)
    then err send_failed
    else ok (take (big_endian view + 4) view)

-- The name is ASCII, and a zero stands behind it.
unfoldable pub check_message : Client → CopyData
check_message c = record {
  identifier = check_id;
  size = length c.map_name + 1;
  pointer = c.pointer;
}

-- `AlreadyRunning`
unfoldable pub already_running : Client → Result ClientError Bytes
unfolding read_answer check_message make_message
already_running c = if not c.window_found then err not_found else elim c.create_mapping [
  | some e ↦ err (mapping_error e)
  | none ↦ elim c.map_view [
    | some e ↦ err (mapping_error e)
    | none ↦
        read_answer (c.send_message (check_message c) (copy_onto (make_message (11 ∷ [])) c.fresh))
  ]
]

-- `checkAlreadyRunning`: whether the program exits.
unfoldable pub check_already_running : Text → Result ClientError Bytes → Bool
check_already_running app_name (err e) = false
check_already_running app_name (ok b) = equal (drop 4 b) app_name

number : Answer → ℕ
number (result n) = n
number default = 0

-- `SendMessage` to the former window: `wndProc` behind `handleCopyMessage`. A process that faults
-- answers nothing, which is 0.
unfoldable pub former_reply : Bytes → Handled → ℕ × Bytes
unfolding number
former_reply mapped faulted = (0, mapped)
former_reply mapped (handled shown after none) =
    (number (Pageant.window_proc wm_copy_data none), after)
former_reply mapped (handled shown after (some e)) =
    (number (Pageant.window_proc wm_copy_data (some e)), mapped)

unfoldable pub opened_by : Text → FormerView → Text → FormerView
opened_by name view n = if equal n name then view else FormerView.not_opened

unfoldable pub send_to_former : System → App → Text → CopyData → Bytes → ℕ × Bytes
unfolding former_reply opened_by
send_to_former sys app name d mapped =
    former_reply mapped (handle_copy_message sys app (opened_by name (FormerView.viewed mapped)) d)

-- Windows lets the client send, to this former window, and both read the same name.
pub record Reaches (sys : System) (app : App) (c : Client) : Type 0 where
  pub found : c.window_found ≡ true
  pub created : c.create_mapping ≡ none
  pub mapped : c.map_view ≡ none
  pub name_size : length c.map_name < 4294967295
  pub name_read : sys.text_of (sys.memory_at c.pointer (length c.map_name)) ≡ c.map_name
  pub name_encodes : sys.utf16_error c.map_name ≡ none
  pub view_size : max_message_len ≤ length c.fresh
  pub sent :
      (d : CopyData) (view : Bytes)
      → c.send_message d view ≡ send_to_former sys app c.map_name d view

-- The answer to a check.
abbrev pub app_answer : App → Bytes
app_answer app = put_big_endian (length app.name) ++ app.name

length-app_answer : (app : App) → length (app_answer app) ≡ length app.name + 4
unfolding put_big_endian
length-app_answer app = omega arith

big_endian-put_big_endian :
    (n : ℕ) (rest : Bytes) → n < 2 ^ 32 → big_endian (put_big_endian n ++ rest) ≡ n
unfolding big_endian put_big_endian
big_endian-put_big_endian n rest h = omega arith

length-copy_onto :
    (response view : Bytes)
    → length response ≤ length view
    → length (copy_onto response view) ≡ length view
unfolding copy_onto
length-copy_onto response view h = omega (
  arith,
  length-append response (drop (length response) view),
  length-drop (length response) view,
)

read_answer-app_answer :
    (app : App) (view : Bytes)
    → length app.name ≤ max_message_len - 4
    → read_answer (1, copy_onto (app_answer app) view) ≡ ok (app_answer app)
unfolding read_answer copy_onto
read_answer-app_answer app view h =
    let rest : Bytes = drop (length (app_answer app)) view in
    let len : big_endian (app_answer app ++ rest) ≡ length app.name =
      rw (append_assoc (put_big_endian (length app.name)) app.name rest)
        (big_endian-put_big_endian (length app.name) (app.name ++ rest) (omega arith)) in
    rw (len, ← length-app_answer app, take-append (app_answer app) rest) (ground arith)

former_reply_check :
    (sys : System) (app : App) (view : Bytes)
    → max_message_len ≤ length view
    → length app.name ≤ max_message_len - 4
    → former_reply view (Pageant.handle_mapped sys app true view)
      ≡ (1, copy_onto (app_answer app) view)
unfolding former_reply Pageant.handle_mapped Pageant.window_proc
former_reply_check sys app view v n = ground (arith, length-app_answer app)

-- The former window takes the check, and puts its answer into the view.
send_to_former_check :
    (sys : System) (app : App) (c : Client) (view : Bytes)
    → Reaches sys app c
    → max_message_len ≤ length view
    → length app.name ≤ max_message_len - 4
    → send_to_former sys app c.map_name (check_message c) view
      ≡ (1, copy_onto (app_answer app) view)
unfolding send_to_former check_message handle_copy_message handle_named Pageant.handle_view
    opened_by
send_to_former_check sys app c view r v n =
    let size : (length c.map_name + 1 + 2 ^ 32 - 1) % 2 ^ 32 ≡ length c.map_name =
      omega (arith, r.name_size) in
    rw (size, r.name_read, r.name_encodes, equal_refl c.map_name)
      (former_reply_check sys app view v n)

length-make_message : length (make_message (11 ∷ [])) ≡ 5
unfolding make_message put_big_endian
length-make_message = refl

message_fits :
    (sys : System) (app : App) (c : Client)
    → Reaches sys app c
    → max_message_len ≤ length (copy_onto (make_message (11 ∷ [])) c.fresh)
message_fits sys app c r =
    rw
      (length-copy_onto (make_message (11 ∷ [])) c.fresh
        (omega (arith, length-make_message, r.view_size)))
      r.view_size

check_app_answer :
    (app : App) (app_name : Text)
    → check_already_running app_name (ok (app_answer app)) ≡ equal app.name app_name
unfolding check_already_running put_big_endian
check_app_answer app app_name = refl

-- A starting program that reaches the window of a running one, whose name has at most 8188 bytes,
-- reads its name, and exits exactly if it is its own.
pub check_already_running-former :
    (sys : System) (app : App) (c : Client) (app_name : Text)
    → Reaches sys app c
    → length app.name ≤ max_message_len - 4
    → (already_running c ≡ ok (app_answer app))
      × (check_already_running app_name (already_running c) ≡ equal app.name app_name)
unfolding already_running
check_already_running-former sys app c app_name r n =
    let view : Bytes = copy_onto (make_message (11 ∷ [])) c.fresh in
    let reply : send_to_former sys app c.map_name (check_message c) view
        ≡ (1, copy_onto (app_answer app) view) =
      send_to_former_check sys app c view r (message_fits sys app c r) n in
    let answered : already_running c ≡ ok (app_answer app) =
      rw (r.found, r.created, r.mapped, r.sent, reply) (read_answer-app_answer app view n) in
    (answered, rw answered (check_app_answer app app_name))
