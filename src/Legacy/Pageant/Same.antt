-- ===== src/Legacy/Pageant/Same.antt =====
-- `handleCopyMessage` of old/pkg/pageant/pageant.go beside `handle` of
-- internal/interfaces/pageant/pageant_windows.go.
use omni_sshagent.Base.{
  ℕ, zero, suc, ◌+◌, ◌-◌, ◌%◌, ◌^◌, ◌<◌, true, false, none, some, ◌≡◌, ap, ◌∙◌, arith, ◌==◌, length,
  take, ok,
}
use omni_sshagent.Base.Text.{Text}
use omni_sshagent.Files.{Bytes}
use omni_sshagent.Interfaces.{is_failure}
use omni_sshagent.Pageant.Request.{
  System, CopyData, RequestError, View, viewed, not_opened, copy_data_id, max_message_len,
  big_endian, request_of, response_of, copy_onto, answer, handle, mapping_name,
}
use omni_sshagent.Pageant.Request
use omni_sshagent.Legacy.Pageant
use omni_sshagent.Legacy.Pageant.{
  App, Handled, faulted, handled, FormerView, request_size, copy_out, answer_served, answer_request,
  handle_view, handle_named, handle_copy_message,
}

-- The view of a mapping that the former window opens, where the present one opens this view.
abbrev pub former_view : View → FormerView
former_view (View.not_opened e) = FormerView.not_opened
former_view (View.not_mapped e) = FormerView.not_mapped e
former_view (View.not_queried e) = FormerView.not_mapped e
former_view (View.viewed mapped) = FormerView.viewed mapped

-- What stands at an address does not depend on how much of it is read.
abbrev pub IsMemory : System → Type 0
IsMemory sys =
    (pointer n : ℕ)
    → (length (sys.memory_at pointer (suc n)) ≡ suc n)
      × (take n (sys.memory_at pointer (suc n)) ≡ sys.memory_at pointer n)

answer_served-answer :
    (sys : System) (request mapped after : Bytes)
    → is_failure (sys.serve_agent request).0 ≡ false
    → answer sys mapped request ≡ (after, none)
    → answer_served (sys.serve_agent request).0 (sys.serve_agent request).1 mapped
      ≡ handled false after none
unfolding answer_served copy_out answer response_of
answer_served-answer sys request mapped after f h = ground arith

answer_request-answer :
    (sys : System) (mapped : Bytes) {request after : Bytes}
    → request_of mapped ≡ ok request
    → is_failure (sys.serve_agent request).0 ≡ false
    → answer sys mapped request ≡ (after, none)
    → answer_request sys mapped ≡ handled false after none
unfolding answer_request request_size request_of
answer_request-answer sys mapped {request} {after} r f h =
    ground (arith, answer_served-answer sys request mapped after f h)

read_without_end :
    (sys : System) (pointer size : ℕ)
    → 0 < size
    → IsMemory sys
    → take (length (sys.memory_at pointer size) - 1) (sys.memory_at pointer size)
      ≡ sys.memory_at pointer (size - 1)
read_without_end sys pointer zero h m = absurd (omega arith)
read_without_end sys pointer (suc n) h m = rw (m pointer n).0 (
    ap (λ (k : ℕ). take k (sys.memory_at pointer (suc n))) (omega arith)
    ∙ (m pointer n).1
    ∙ ap (sys.memory_at pointer) (omega arith))

-- The name that the present window accepts is the one that the former window reads.
mapping_name-text :
    (sys : System) (d : CopyData) {name : Text}
    → mapping_name sys d ≡ ok name
    → IsMemory sys
    → (sys.text_of (sys.memory_at d.pointer ((d.size + 2 ^ 32 - 1) % 2 ^ 32)) ≡ name)
      × (sys.utf16_error name ≡ none)
unfolding mapping_name
mapping_name-text sys d {name} h m =
    let size : (d.size + 2 ^ 32 - 1) % 2 ^ 32 ≡ d.size - 1 = ground arith in
    rw size (ground (arith, read_without_end sys d.pointer d.size))

answer_mapped :
    (sys : System) (app : App) (mapped request : Bytes)
    → request_of mapped ≡ ok request
    → is_failure (sys.serve_agent request).0 ≡ false
    → (answer sys mapped request).1 ≡ none
    → Pageant.handle_mapped sys app false mapped ≡ handled false (answer sys mapped request).0 none
unfolding Pageant.handle_mapped request_of
answer_mapped sys app mapped request r f fine =
    ground
      (arith, answer_request-answer sys mapped r f (λ i. ((answer sys mapped request).0, fine i)))

-- What the present window has done where it reports no error.
handle_ok :
    (sys : System) (views : Text → View) (d : CopyData) (name : Text) (mapped request : Bytes)
    (after : View)
    → mapping_name sys d ≡ ok name
    → views name ≡ viewed mapped
    → request_of mapped ≡ ok request
    → handle sys views (some d) ≡ (after, none)
    → ((d.identifier == copy_data_id) ≡ true)
      × (after ≡ viewed (answer sys mapped request).0)
      × ((answer sys mapped request).1 ≡ none)
unfolding handle Request.handle_mapped
handle_ok sys views d name mapped request after n v r h = ground arith

-- Whatever the present window answers, the former one answers alike, unless the agent fails: the
-- same bytes stand in the mapping, and there is no error.
pub handle_copy_message-handle :
    (sys : System) (app : App) (views : Text → View) (d : CopyData) (name : Text)
    (mapped request : Bytes) (after : View)
    → IsMemory sys
    → mapping_name sys d ≡ ok name
    → views name ≡ viewed mapped
    → request_of mapped ≡ ok request
    → is_failure (sys.serve_agent request).0 ≡ false
    → handle sys views (some d) ≡ (after, none)
    → (bytes : Bytes) × (after ≡ viewed bytes)
      × (handle_copy_message sys app (λ n. former_view (views n)) d ≡ handled false bytes none)
unfolding handle_copy_message handle_named handle_view
handle_copy_message-handle sys app views d name mapped request after mem n v r f h =
    let (id, same, fine) = handle_ok sys views d name mapped request after n v r h in
    let (read, text) = mapping_name-text sys d n mem in
    (
      (answer sys mapped request).0,
      same,
      rw (id, read, text, v) (answer_mapped sys app mapped request r f fine),
    )
