-- ===== src/Pageant/Request/Bounds.antt =====
-- What `handle` of internal/interfaces/pageant/pageant_windows.go reads and writes.
use omni_sshagent.Base.{
  ℕ, zero, suc, ◌+◌, ◌≤◌, ◌<◌, [], ◌∷◌, Option, none, some, ◌≡◌, refl, sym, ap, ◌∙◌, arith,
  Bool-cases, inl, inr, ltb, ◌||◌, length, take, drop, get_or, length-append, length-take,
  length-drop, Result, ok, err,
}
use omni_sshagent.Files.{Bytes}
use omni_sshagent.Pageant.Request.{
  System, RequestError, max_message_len, big_endian, request_of, response_of, copy_onto, answer,
  handle_mapped,
}

get_or-take : (n i : ℕ) (b : Bytes) (d : ℕ) → i < n → get_or (take n b) i d ≡ get_or b i d
get_or-take zero i b d h = absurd (omega arith)
get_or-take (suc n) i [] d h = refl
get_or-take (suc n) zero (x ∷ b) d h = refl
get_or-take (suc n) (suc i) (x ∷ b) d h = get_or-take n i b d (omega arith)

big_endian-take : (n : ℕ) (b : Bytes) → 4 ≤ n → big_endian (take n b) ≡ big_endian b
unfolding big_endian
big_endian-take n b h = rw (
  get_or-take n 0 b 0 (omega arith),
  get_or-take n 1 b 0 (omega arith),
  get_or-take n 2 b 0 (omega arith),
  get_or-take n 3 b 0 (omega arith),
)

request_of-take :
    (mapped : Bytes) {request : Bytes}
    → request_of mapped ≡ ok request
    → (take (big_endian mapped + 4) mapped ≡ request)
      × (0 < big_endian mapped)
      × (big_endian mapped ≤ max_message_len)
      × (big_endian mapped + 4 ≤ length mapped)
unfolding request_of
request_of-take mapped h = ground arith

-- A request that is handed to the agent is the front of the mapping: four bytes that hold its
-- length, which is positive and at most the limit, and just as many bytes behind them.
pub request_of_bounds :
    (mapped : Bytes) {request : Bytes}
    → request_of mapped ≡ ok request
    → (length request ≡ big_endian request + 4)
      × (0 < big_endian request)
      × (big_endian request ≤ max_message_len)
      × (length request ≤ length mapped)
      × (request ≡ take (length request) mapped)
request_of_bounds mapped {request} h =
    let (front, positive, bounded, inside) = request_of-take mapped h in
    let size : length (take (big_endian mapped + 4) mapped) ≡ big_endian mapped + 4 =
      omega (arith, length-take (big_endian mapped + 4) mapped) in
    let same : big_endian (take (big_endian mapped + 4) mapped) ≡ big_endian mapped =
      big_endian-take (big_endian mapped + 4) mapped (omega arith) in
    rw (← front) (
      size ∙ ap (λ (n : ℕ). n + 4) (sym same),
      rw same positive,
      rw same bounded,
      rw size inside,
      ap (λ (n : ℕ). take n mapped) (sym size),
    )

copy_onto-length :
    (response mapped : Bytes)
    → length response ≤ length mapped
    → length (copy_onto response mapped) ≡ length mapped
unfolding copy_onto
copy_onto-length response mapped h = omega (
  arith,
  length-append response (drop (length response) mapped),
  length-drop (length response) mapped,
)

-- What an answer leaves in a mapping.
abbrev pub Answered : System → Bytes → Bytes × Option RequestError → Type 0
Answered sys mapped (after, none) =
    (request : Bytes) × (request_of mapped ≡ ok request)
    × (5 ≤ length (response_of (sys.serve_agent request)))
    × (length after ≡ length mapped)
    × (after ≡ copy_onto (response_of (sys.serve_agent request)) mapped)
Answered sys mapped (after, some e) = after ≡ mapped

answer-Answered :
    (sys : System) (mapped request : Bytes)
    → request_of mapped ≡ ok request
    → Answered sys mapped (answer sys mapped request)
unfolding answer
answer-Answered sys mapped request h =
    let response = response_of (sys.serve_agent request) in
    elim (Bool-cases (ltb (length response) 5 || ltb (length mapped) (length response))) [
      | inl bad ↦ rw bad refl
      | inr good ↦
          rw good (request, h, ground arith, copy_onto-length response mapped (ground arith), refl)
    ]

handled :
    (sys : System) (mapped : Bytes) (r : Result RequestError Bytes)
    → request_of mapped ≡ r
    → Answered sys mapped (elim r [ err e ↦ (mapped, some e) | ok q ↦ answer sys mapped q ])
handled sys mapped (ok request) h = answer-Answered sys mapped request h
handled sys mapped (err e) h = refl

-- With an error the mapping is left as it was. Otherwise the agent was given the request that
-- stands in it, the response has at least 5 bytes and fits, it stands at the front, and the rest
-- of the mapping, whose size is the same, is unchanged.
pub handle_mapped-Answered :
    (sys : System) (mapped : Bytes) → Answered sys mapped (handle_mapped sys mapped)
unfolding handle_mapped
handle_mapped-Answered sys mapped = handled sys mapped (request_of mapped) refl
