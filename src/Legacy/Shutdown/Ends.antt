-- ===== src/Legacy/Shutdown/Ends.antt =====
-- When the `Wait` of `shutdown` in old/app.go ends.
use omni_sshagent.Base.{
  ℕ, zero, suc, ◌+◌, ◌-◌, Bool, true, false, ◌≡◌, ◌≢◌, ◌⊎◌, inl, inr, refl, arith, if◌then◌else◌,
}
use omni_sshagent.Legacy.Shutdown.{
  Phase, starting, windowed, ready, lost, ended, Shutdown, not_called, waiting, returned, Run,
  start, has_window, has_exited, Orderly, ring_made, cancel_made, agent_started, startup_ended,
  window_made, on_ready, tray_closed, agent_stopped, shutdown_called, shutdown_returned, Step,
  orderly, agent_failed, on_ready_panicked, Reach, here, next,
}

abbrev is_called : Shutdown → Bool
is_called not_called = false
is_called waiting = true
is_called returned = true

-- What holds in every state that the program reaches.
record IsConsistent (s : Run) : Type 0 where
  counts : s.pending ≡ s.serving + (if has_exited s.tray then 0 else 1)
  ringed : s.cancel_made ≡ true → s.ring_made ≡ true
  called : s.cancelled ≡ true → s.cancel_made ≡ true
  posted : s.close_posted ≡ true → is_called s.shutdown ≡ true
  windowed_first : s.close_posted ≡ true → s.tray ≢ starting
  exited_last : s.tray ≡ ended → s.close_posted ≡ true

start-IsConsistent : IsConsistent start
unfolding start has_exited
start-IsConsistent = ground arith

Orderly-IsConsistent : {s t : Run} → Orderly s t → IsConsistent s → IsConsistent t
unfolding has_exited has_window
Orderly-IsConsistent (ring_made s e) c = grind arith
Orderly-IsConsistent (cancel_made s e f) c = grind arith
Orderly-IsConsistent (agent_started s e f) c = grind arith
Orderly-IsConsistent (startup_ended s e f) c = grind arith
Orderly-IsConsistent (window_made s e) c = grind arith
Orderly-IsConsistent (on_ready s e f) c = grind arith
Orderly-IsConsistent (tray_closed s e f) c = grind arith
Orderly-IsConsistent (agent_stopped s e f) c = grind arith
Orderly-IsConsistent (shutdown_called s f) c = grind arith
Orderly-IsConsistent (shutdown_returned s e f) c = grind arith

Step-IsConsistent : {s t : Run} → Step s t → IsConsistent s → IsConsistent t
unfolding has_exited
Step-IsConsistent (orderly o) c = Orderly-IsConsistent o c
Step-IsConsistent (agent_failed s e) c = grind arith
Step-IsConsistent (on_ready_panicked s e f) c = grind arith

Reach-IsConsistent : {s : Run} → Reach Step start s → IsConsistent s
Reach-IsConsistent here = start-IsConsistent
Reach-IsConsistent (next r st) = Step-IsConsistent st (Reach-IsConsistent r)

-- Where the panic or the lost message leaves the program: the counter stays above 0.
abbrev IsStuck : Run → Type 0
IsStuck s =
    (s.shutdown ≢ returned)
    × ((s.tray ≡ lost)
        ⊎ ((s.shutdown ≡ waiting) × (s.close_posted ≡ false) × (has_exited s.tray ≡ false)))

Orderly-IsStuck : {s t : Run} → Orderly s t → IsConsistent s → IsStuck s → IsStuck t
unfolding has_exited
Orderly-IsStuck (ring_made s e) c k = k
Orderly-IsStuck (cancel_made s e f) c k = k
Orderly-IsStuck (agent_started s e f) c k = k
Orderly-IsStuck (startup_ended s e f) c k = k
Orderly-IsStuck (window_made s e) c (k, inl l) = grind arith
Orderly-IsStuck (window_made s e) c (k, inr l) = (k, inr (l.0, l.1, refl))
Orderly-IsStuck (on_ready s e f) c (k, inl l) = grind arith
Orderly-IsStuck (on_ready s e f) c (k, inr l) = (k, inr (l.0, l.1, refl))
Orderly-IsStuck (tray_closed s e f) c (k, inl l) = grind arith
Orderly-IsStuck (tray_closed s e f) c (k, inr l) = grind arith
Orderly-IsStuck (agent_stopped s e f) c k = k
Orderly-IsStuck (shutdown_called s f) c (k, inl l) = (λ h. cc, inl l)
Orderly-IsStuck (shutdown_called s f) c (k, inr l) = grind arith
Orderly-IsStuck (shutdown_returned s e f) c (k, inl l) = absurd (ground arith)
Orderly-IsStuck (shutdown_returned s e f) c (k, inr l) = absurd (ground arith)

Step-IsStuck : {s t : Run} → Step s t → IsConsistent s → IsStuck s → IsStuck t
unfolding has_exited
Step-IsStuck (orderly o) c k = Orderly-IsStuck o c k
Step-IsStuck (agent_failed s e) c k = k
Step-IsStuck (on_ready_panicked s e f) c (k, l) = (k, inl refl)

stays-IsStuck :
    {s t : Run} → IsConsistent s → IsStuck s → Reach Step s t → IsConsistent t × IsStuck t
stays-IsStuck c k here = (c, k)
stays-IsStuck c k (next r st) =
    let (c', k') = stays-IsStuck c k r in (Step-IsConsistent st c', Step-IsStuck st c' k')

-- If the tray has panicked before `Run` deferred `systrayOnExit`, or if `shutdown` has posted the
-- message to a window that was not there yet, then `shutdown` never returns, whatever happens.
pub shutdown_hangs :
    (s t : Run)
    → Reach Step start s
    → s.shutdown ≢ returned
    → (s.tray ≡ lost) ⊎ ((s.shutdown ≡ waiting) × (s.close_posted ≡ false))
    → Reach Step s t
    → t.shutdown ≢ returned
unfolding has_exited
shutdown_hangs s t r w h more =
    let c = Reach-IsConsistent r in (stays-IsStuck c (w, stuck c h) more).1.0
  where
    stuck :
        IsConsistent s
        → (s.tray ≡ lost) ⊎ ((s.shutdown ≡ waiting) × (s.close_posted ≡ false))
        → (s.tray ≡ lost)
          ⊎ ((s.shutdown ≡ waiting) × (s.close_posted ≡ false) × (has_exited s.tray ≡ false))
    stuck c (inl l) = inl l
    stuck c (inr (a, b)) = inr (a, b, ground (arith, c.exited_last))

Reach-trans : {R : Run → Run → Type 0} {s t u : Run} → Reach R s t → Reach R t u → Reach R s u
Reach-trans r here = r
Reach-trans r (next q st) = next (Reach-trans r q) st

-- The agents end one after the other.
stop_agents :
    (n : ℕ) (s : Run)
    → s.serving ≡ n
    → s.cancelled ≡ true
    → s.shutdown ≡ waiting
    → IsConsistent s
    → (u : Run) × Reach Orderly s u
      × (u.serving ≡ 0)
      × (u.tray ≡ s.tray)
      × (u.shutdown ≡ waiting)
      × IsConsistent u
stop_agents zero s e x w c = (s, here, e, refl, w, c)
stop_agents (suc n) s e x w c =
    let st : Orderly s (record s { serving = n; pending = s.pending - 1 }) = agent_stopped s e x in
    let (u, r, a, b, d, c') =
      stop_agents n (record s { serving = n; pending = s.pending - 1 }) refl x w
        (Orderly-IsConsistent st c) in
    (u, Reach-trans (next here st) r, a, b, d, c')

close_ready :
    (s : Run)
    → s.tray ≡ ready
    → s.cancelled ≡ true
    → s.shutdown ≡ waiting
    → s.close_posted ≡ true
    → IsConsistent s
    → (u : Run) × Reach Orderly s u
      × (u.tray ≡ ended)
      × (u.cancelled ≡ true)
      × (u.shutdown ≡ waiting)
      × IsConsistent u
close_ready s e x w p c =
    let st : Orderly s (record s { tray = ended; pending = s.pending - 1 }) = tray_closed s e p in
    (
      record s { tray = ended; pending = s.pending - 1 },
      next here st,
      refl,
      x,
      w,
      Orderly-IsConsistent st c,
    )

close_tray :
    (p : Phase) (s : Run)
    → s.tray ≡ p
    → p ≢ lost
    → s.cancelled ≡ true
    → s.shutdown ≡ waiting
    → s.close_posted ≡ true
    → IsConsistent s
    → (u : Run) × Reach Orderly s u
      × (u.tray ≡ ended)
      × (u.cancelled ≡ true)
      × (u.shutdown ≡ waiting)
      × IsConsistent u
close_tray starting s e l x w p c = absurd (c.windowed_first p e)
close_tray windowed s e l x w p c =
    let ring : s.ring_made ≡ true = c.ringed (c.called x) in
    let st : Orderly s (record s { tray = ready }) = on_ready s e ring in
    let (u, r, gone, x', w', c') =
      close_ready (record s { tray = ready }) refl x w p (Orderly-IsConsistent st c) in
    (u, Reach-trans (next here st) r, gone, x', w', c')
close_tray ready s e l x w p c = close_ready s e x w p c
close_tray lost s e l x w p c = absurd (l refl)
close_tray ended s e l x w p c = (s, here, e, x, w, c)

-- While `shutdown` waits, if it came when the context of the agents was made, so that they are
-- cancelled, and when the window was there, so that its message has reached it, and if the tray has
-- not panicked, the program can go on, with no failure, until `shutdown` returns.
pub shutdown_ends :
    (s : Run)
    → Reach Step start s
    → s.shutdown ≡ waiting
    → s.cancelled ≡ true
    → s.close_posted ≡ true
    → s.tray ≢ lost
    → (t : Run) × Reach Orderly s t × (t.shutdown ≡ returned)
unfolding has_exited
shutdown_ends s r w x p l =
    let (u, to_u, gone, x', w', c) = close_tray s.tray s refl l x w p (Reach-IsConsistent r) in
    let (v, to_v, idle, same, w'', c') = stop_agents u.serving u refl x' w' c in
    let zero_left : v.pending ≡ 0 = ground (arith, c'.counts, idle, same, gone) in
    (
      record v { shutdown = returned },
      next (Reach-trans to_u to_v) (shutdown_returned v w'' zero_left),
      refl,
    )
