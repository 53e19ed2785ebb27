-- ===== src/App/Lifecycle/Progress.antt =====
-- The measure `work` of a run of internal/app/application.go, and the next step of a run.
use omni_sshagent.Base.{
  ℕ, zero, suc, ◌+◌, ◌≤◌, ◌<◌, Bool, true, false, List, [], ◌∷◌, ◌++◌, none, ◌≡◌, ◌⊎◌, inl, inr,
  refl, ap, arith, All, length, length-append, if◌then◌else◌, Bool-cases,
}
use omni_sshagent.Base.Text.{Text}
use omni_sshagent.App.{ComponentStatus}
use omni_sshagent.App.Lifecycle.{
  Phase, launched, waiting, exited, Worker, Signal, ready, report, Run, start, HasExited, Step,
  return, send, leave, receive, settle, close, Reach, here, next, Starting, running, returned,
  taken, taken_by, stopped, cancelled, reported,
}
use omni_sshagent.App.Lifecycle.Inv.{
  IsConsistent, Awaits, All-middle, reports, phase_reports, length-Perm, Step-IsConsistent,
  Reach-IsConsistent, start-IsConsistent,
}

abbrev phase_work : Phase → ℕ
phase_work launched = 3
phase_work (waiting s) = 1
phase_work (exited s) = 0

abbrev start_work : Starting → ℕ
start_work running = 1
start_work (returned e) = 0
start_work taken = 0

abbrev worker_work : Worker → ℕ
worker_work w = phase_work w.phase + start_work w.starting

abbrev workers_work : List Worker → ℕ
workers_work [] = 0
workers_work (w ∷ ws) = worker_work w + workers_work ws

-- What is left to do: returns, sends, leaves, receives, `setState`, and the close of `done`.
pub work : Run → ℕ
work t =
    workers_work t.workers
    + length t.results
    + (if t.settled then 0 else 1)
    + (if t.done then 0 else 1)

workers_work-middle :
    (before after : List Worker) (w : Worker)
    → workers_work (before ++ w ∷ after) ≡ workers_work (before ++ after) + worker_work w
workers_work-middle [] after w = omega arith
workers_work-middle (v ∷ before) after w = omega (arith, workers_work-middle before after w)

report_work : (w : Worker) (signal : Signal) → phase_work (report w signal).0 ≤ 1
unfolding report
report_work w signal = ground arith

taken_by_work : (signal : Signal) (s : Starting) → start_work (taken_by signal s) ≤ start_work s
unfolding taken_by
taken_by_work (ready e) s = omega arith
taken_by_work (stopped e) running = omega arith
taken_by_work (stopped e) (returned r) = omega arith
taken_by_work (stopped e) taken = omega arith
taken_by_work (cancelled e) s = omega arith

kept_work :
    (b : Bool) (signal : Signal) (s : Starting)
    → start_work (if b then taken_by signal s else s) ≤ start_work s
kept_work true signal s = taken_by_work signal s
kept_work false signal s = omega arith

reported_work :
    (w : Worker) (signal : Signal) → worker_work (reported w signal) ≤ 1 + start_work w.starting
unfolding reported
reported_work w signal =
    omega (arith, report_work w signal, kept_work w.has_ready signal w.starting)

-- Each step leaves less to do, so a run of the application takes at most `work` steps.
pub work-Step : {t u : Run} → Step t u → work u < work t
unfolding work
work-Step (return before after w r split run e) =
    rw (e, split)
      (omega (
        arith,
        workers_work-middle before after w,
        ap start_work run,
        workers_work-middle before after (record w { starting = returned r }),
      ))
work-Step {t} (send before after w signal split phase offered e) =
    rw (e, split)
      (omega (
        arith,
        workers_work-middle before after w,
        reported_work w signal,
        workers_work-middle before after (reported w signal),
        ap phase_work phase,
        length-append t.results ((report w signal).1 ∷ []),
      ))
work-Step (leave before after w s r split phase stands e) =
    rw (e, split)
      (omega (
        arith,
        workers_work-middle before after w,
        ap phase_work phase,
        ap start_work stands,
        workers_work-middle before after (record w { phase = exited s; starting = taken }),
      ))
work-Step (receive s rest k full left e) = rw (e, full) (omega arith)
work-Step (settle zero_left open_ e) = rw (e, open_) (omega arith)
work-Step (close s d x e) = rw (e, d) (omega arith)

-- A worker that can move, or proof that all have left.
abbrev Busy : List Worker → Type 0
Busy ws =
    (before : List Worker) × (w : Worker) × (after : List Worker) × (ws ≡ before ++ w ∷ after)
    × ((w.phase ≡ launched) ⊎ ((s : ComponentStatus) × (w.phase ≡ waiting s)))

find-Busy : (ws : List Worker) → Busy ws ⊎ All HasExited ws
find-Busy [] = inr tt
find-Busy (w ∷ ws) = go w.phase refl (find-Busy ws)
  where
    go :
        (p : Phase)
        → w.phase ≡ p
        → Busy ws ⊎ All HasExited ws
        → Busy (w ∷ ws) ⊎ All HasExited (w ∷ ws)
    go launched e r = inl ([], w, ws, refl, inl e)
    go (waiting s) e r = inl ([], w, ws, refl, inr (s, e))
    go (exited s) e (inl (before, v, after, split, moves)) =
        inl (w ∷ before, v, after, ap (◌∷◌ w) split, moves)
    go (exited s) e (inr all) = inr ((s, e), all)

-- All components have reported, or one has not.
find_launched :
    (ws : List Worker)
    → ((before : List Worker) × (w : Worker) × (after : List Worker) × (ws ≡ before ++ w ∷ after)
        × (w.phase ≡ launched))
      ⊎ (length (reports ws) ≡ length ws)
find_launched [] = inr refl
find_launched (w ∷ ws) = go w.phase refl (find_launched ws)
  where
    go :
        (p : Phase)
        → w.phase ≡ p
        → ((before : List Worker) × (v : Worker) × (after : List Worker) × (ws
              ≡ before ++ v ∷ after)
            × (v.phase ≡ launched))
          ⊎ (length (reports ws) ≡ length ws)
        → ((before : List Worker) × (v : Worker) × (after : List Worker) × (w ∷ ws
              ≡ before ++ v ∷ after)
            × (v.phase ≡ launched))
          ⊎ (length (phase_reports w.phase ++ reports ws) ≡ suc (length ws))
    go launched e r = inl ([], w, ws, refl, e)
    go (waiting s) e (inl (before, v, after, split, l)) =
        inl (w ∷ before, v, after, ap (◌∷◌ w) split, l)
    go (exited s) e (inl (before, v, after, split, l)) =
        inl (w ∷ before, v, after, ap (◌∷◌ w) split, l)
    go (waiting s) e (inr n) = inr (rw e (ap suc n))
    go (exited s) e (inr n) = inr (rw e (ap suc n))

-- A worker that has not left has a step to make: its `Start` returns, or its result is taken.
worker_step :
    (t : Run) (before after : List Worker) (w : Worker)
    → t.workers ≡ before ++ w ∷ after
    → (w.phase ≡ launched) ⊎ ((s : ComponentStatus) × (w.phase ≡ waiting s))
    → (r : Starting) → w.starting ≡ r
    → Awaits w
    → (u : Run) × Step t u
worker_step t before after w split moves running e h = (_, return before after w none split e refl)
worker_step t before after w split (inl l) (returned r) e h =
    (_, send before after w (stopped r) split l e refl)
worker_step t before after w split (inr (s, l)) (returned r) e h =
    (_, leave before after w s r split l e refl)
worker_step t before after w split (inl l) taken e h = absurd (rw (l, e) at h)
worker_step t before after w split (inr (s, l)) taken e h = absurd (rw (l, e) at h)

step_settled :
    (t : Run) → All Awaits t.workers → t.settled ≡ true → t.done ≡ false → (u : Run) × Step t u
step_settled t h s d = elim (find-Busy t.workers) [
  | inl (before, w, after, split, moves) ↦
      worker_step t before after w split moves w.starting refl
        (All-middle Awaits before w after (rw split at h))
  | inr all ↦ (_, close s d all refl)
]

step_receiving :
    {n : ℕ} (t : Run) (k : ℕ)
    → IsConsistent n t
    → t.pending ≡ suc k
    → (l : List ComponentStatus) → t.results ≡ l
    → (u : Run) × Step t u
step_receiving t k c left (s ∷ rest) e = (_, receive s rest k e left refl)
step_receiving t k c left [] e = elim (find_launched t.workers) [
  | inl (before, w, after, split, l) ↦
      worker_step t before after w split (inl l) w.starting refl
        (All-middle Awaits before w after (rw split at c.awaited))
  | inr all ↦ absurd (
      omega (
        arith,
        length-Perm c.sent,
        length-append t.statuses t.results,
        ap length e,
        c.sized,
        c.counted,
      ))
]

step_open :
    {n : ℕ} (t : Run)
    → IsConsistent n t
    → t.settled ≡ false
    → (k : ℕ) → t.pending ≡ k
    → (u : Run) × Step t u
step_open t c s zero e = (_, settle e s refl)
step_open t c s (suc k) e = step_receiving t k c e t.results refl

-- A run that has not closed `done` is never stuck: if every `Start` returns, some goroutine has a step
-- to make.
step_exists : {n : ℕ} (t : Run) → IsConsistent n t → t.done ≡ false → (u : Run) × Step t u
step_exists t c d = elim (Bool-cases t.settled) [
  | inl s ↦ step_settled t c.awaited s d
  | inr s ↦ step_open t c s t.pending refl
]

Reach-cons : {t u v : Run} → Step t u → Reach u v → Reach t v
Reach-cons s here = next here s
Reach-cons s (next r l) = next (Reach-cons s r) l

run_to_done :
    {n : ℕ} (fuel : ℕ) (t : Run)
    → IsConsistent n t
    → work t ≤ fuel
    → (u : Run) × Reach t u × (u.done ≡ true)
run_to_done zero t c h = elim (Bool-cases t.done) [
  | inl d ↦ (t, here, d)
  | inr d ↦ let (u, s) = step_exists t c d in absurd (omega (arith, work-Step s))
]
run_to_done (suc fuel) t c h = elim (Bool-cases t.done) [
  | inl d ↦ (t, here, d)
  | inr d ↦
      let (u, s) = step_exists t c d in
      let (v, r, e) = run_to_done fuel u (Step-IsConsistent s c) (omega (arith, work-Step s)) in
      (v, Reach-cons s r, e)
]

-- From every state that a run of the application reaches, it can go on until `done` is closed,
-- which releases `Shutdown`, once the `Start` of every component returns: a worker waits for that
-- alone, and no interleaving leads into a deadlock.
pub done_reachable :
    (components : List (Text × Bool)) (t : Run)
    → Reach (start components) t
    → (u : Run) × Reach t u × (u.done ≡ true)
done_reachable components t r =
    run_to_done (work t) t (Reach-IsConsistent r (start-IsConsistent components)) (omega arith)
