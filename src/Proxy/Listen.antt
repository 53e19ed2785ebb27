-- ===== src/Proxy/Listen.antt =====
-- old/cmd/wsl2-ssh-agent-proxy/main.go: `listenLoop`, which numbers the connections. The listener is
-- what its calls of `Accept` give, each with the state of the context behind it.
use omni_sshagent.Base.{
  ℕ, zero, suc, ◌+◌, ◌%◌, ◌<◌, Bool, true, false, List, [], ◌∷◌, some, get_elem?, if◌then◌else◌,
  ◌≡◌, ◌≢◌, arith,
}

pub data Accept : Type 0 where
  -- A connection; the context is done behind it or not.
  conn : Bool → Accept
  listener_closed : Accept
  -- Another error, and the loop goes on without a look at the context.
  accept_error : Accept

-- The channels that the connections get, from the number `id` on.
listen_from : ℕ → List Accept → List ℕ
listen_from id [] = []
listen_from id (conn is_done ∷ events) =
    let rest = listen_from ((id + 1) % 4294967296) events in id ∷ (if is_done then [] else rest)
listen_from id (listener_closed ∷ events) = []
listen_from id (accept_error ∷ events) = listen_from id events

-- `listenLoop`; it starts at 1 each time that it is called.
unfoldable pub listen_loop : List Accept → List ℕ
unfolding listen_from
listen_loop events = listen_from 1 events

get_elem?-listen_from :
    (events : List Accept) (id i c : ℕ)
    → id < 4294967296
    → get_elem? (listen_from id events) i ≡ some c
    → c ≡ (id + i) % 4294967296
unfolding listen_from
get_elem?-listen_from [] id i c h e = ground (arith, e)
get_elem?-listen_from (listener_closed ∷ events) id i c h e = ground (arith, e)
get_elem?-listen_from (accept_error ∷ events) id i c h e = get_elem?-listen_from events id i c h e
get_elem?-listen_from (conn is_done ∷ events) id zero c h e = ground (arith, e)
get_elem?-listen_from (conn true ∷ events) id (suc i) c h e = ground (arith, e)
get_elem?-listen_from (conn false ∷ events) id (suc i) c h e =
    let ih = get_elem?-listen_from events ((id + 1) % 4294967296) i c (omega arith) e in
    omega (arith, ih)

-- Two connections of one `listenLoop` get different channels, unless 2^32 connections or more lie
-- between them.
pub listen_loop_distinct :
    (events : List Accept) (i j c d : ℕ)
    → get_elem? (listen_loop events) i ≡ some c
    → get_elem? (listen_loop events) j ≡ some d
    → i < j
    → j < i + 4294967296
    → c ≢ d
unfolding listen_loop
listen_loop_distinct events i j c d e f h k same =
    let a = get_elem?-listen_from events 1 i c (omega arith) e in
    let b = get_elem?-listen_from events 1 j d (omega arith) f in omega (arith, a, b, same, h, k)
