-- ===== src/App/Lifecycle/Inv.antt =====
-- The invariant of the goroutines of internal/app/application.go: the statuses that were sent, those
-- in the channel and those received.
use mathlib.Core.List.{Perm, Permᴰ, append_assoc, perm_middle, perm_append_singleton}
use mathlib.Core.List.Perm
use mathlib.Core.Logic.{∥∥₁_elim}
use native.Mathlib.Nat.{ℕ_set}
use omni_sshagent.Base.{
  ℕ, suc, ◌+◌, ◌≤◌, Bool, true, false, List, [], ◌∷◌, ◌++◌, Option, none, if◌then◌else◌, ◌≡◌, ◌≢◌,
  refl, sym, ap, ◌∙◌, arith, All, length, length-append,
}
use omni_sshagent.Base.Text.{Text}
use omni_sshagent.App.{Error, ComponentStatus, aggregate}
use omni_sshagent.App.Lifecycle.{
  Phase, launched, waiting, exited, Worker, Starting, running, returned, taken, Signal, ready,
  stopped, cancelled, select, status, taken_by, report, reported, Run, launch, start, HasExited,
  Step, return, send, leave, receive, settle, close, Reach, here, next,
}

-- The status that a worker has sent.
abbrev pub phase_reports : Phase → List ComponentStatus
phase_reports launched = []
phase_reports (waiting s) = s ∷ []
phase_reports (exited s) = s ∷ []

abbrev pub reports : List Worker → List ComponentStatus
reports [] = []
reports (w ∷ ws) = phase_reports w.phase ++ reports ws

reports-append : (xs ys : List Worker) → reports (xs ++ ys) ≡ reports xs ++ reports ys
reports-append [] ys = refl
reports-append (w ∷ xs) ys = simp (reports-append xs ys, append_assoc)

length-phase_reports : (p : Phase) → length (phase_reports p) ≤ 1
length-phase_reports launched = omega arith
length-phase_reports (waiting s) = omega arith
length-phase_reports (exited s) = omega arith

pub length-reports : (ws : List Worker) → length (reports ws) ≤ length ws
length-reports [] = omega arith
length-reports (w ∷ ws) = omega (
  arith,
  length-append (phase_reports w.phase) (reports ws),
  length-phase_reports w.phase,
  length-reports ws,
)

length-Permᴰ : {l m : List ComponentStatus} → Permᴰ l m → length l ≡ length m
length-Permᴰ Permᴰ.nil = refl
length-Permᴰ (Permᴰ.cons e p) = ap suc (length-Permᴰ p)
length-Permᴰ (Permᴰ.swap e f) = refl
length-Permᴰ (Permᴰ.trans p q) = length-Permᴰ p ∙ length-Permᴰ q

pub length-Perm : {l m : List ComponentStatus} → Perm l m → length l ≡ length m
length-Perm p = ∥∥₁_elim p (ℕ_set _ _) (λ d. length-Permᴰ d)

length-replace :
    (before after : List Worker) (v w : Worker)
    → length (before ++ v ∷ after) ≡ length (before ++ w ∷ after)
length-replace before after v w =
    omega (arith, length-append before (v ∷ after), length-append before (w ∷ after))

report-phase_reports :
    (w : Worker) (signal : Signal)
    → phase_reports (reported w signal).phase ≡ (report w signal).1 ∷ []
unfolding report reported
report-phase_reports w signal = ground arith

-- The result of `Start` is taken only by a worker that leaves.
abbrev pub IsOpen : Phase → Starting → Type 0
IsOpen launched running = Unit
IsOpen launched (returned e) = Unit
IsOpen launched taken = ⊥
IsOpen (waiting s) running = Unit
IsOpen (waiting s) (returned e) = Unit
IsOpen (waiting s) taken = ⊥
IsOpen (exited s) r = Unit

abbrev pub Awaits : Worker → Type 0
Awaits w = IsOpen w.phase w.starting

pub record IsConsistent (n : ℕ) (t : Run) : Type 0 where
  pub sent : Perm (reports t.workers) (t.statuses ++ t.results)
  pub counted : t.pending + length t.statuses ≡ n
  pub sized : length t.workers ≡ n
  pub settled_last : t.settled ≡ true → t.pending ≡ 0
  pub settled_state : t.settled ≡ true → t.state ≡ aggregate none t.statuses
  pub awaited : All Awaits t.workers
  pub done_last : t.done ≡ true → All HasExited t.workers

-- A worker that has sent `s`, in place of one that has sent nothing.
replace-sends :
    (before after : List Worker) (v w : Worker) (s : ComponentStatus) {l : List ComponentStatus}
    → phase_reports v.phase ≡ []
    → phase_reports w.phase ≡ s ∷ []
    → Perm (reports (before ++ v ∷ after)) l
    → Perm (reports (before ++ w ∷ after)) (l ++ s ∷ [])
replace-sends before after v w s {l} none_sent one_sent p =
    rw (reports-append before (w ∷ after), one_sent)
      (Perm.trans (perm_middle (reports before) (reports after)) (
        Perm.trans (Perm.cons s (rw (reports-append before (v ∷ after), none_sent) at p))
          (Perm.symm (perm_append_singleton s l))))

replace-reports :
    (before after : List Worker) (v w : Worker)
    → phase_reports v.phase ≡ phase_reports w.phase
    → reports (before ++ v ∷ after) ≡ reports (before ++ w ∷ after)
replace-reports before after v w e =
    rw (reports-append before (v ∷ after), reports-append before (w ∷ after), e)

Step-sent :
    {t u : Run}
    → Step t u
    → Perm (reports t.workers) (t.statuses ++ t.results)
    → Perm (reports u.workers) (u.statuses ++ u.results)
Step-sent (return before after w r split run e) p =
    rw e (
      rw (replace-reports before after (record w { starting = returned r }) w refl) (rw split at p))
Step-sent {t} (send before after w signal split phase offered e) p = rw e (
    rw (← append_assoc t.statuses t.results ((report w signal).1 ∷ [])) (
      replace-sends before after w _ (report w signal).1 (ap phase_reports phase)
        (report-phase_reports w signal) (rw split at p)))
Step-sent (leave before after w s v split phase stands e) p = rw e (
    rw
      (replace-reports before after (record w { phase = exited s; starting = taken }) w
        (ap phase_reports (sym phase)))
      (rw split at p))
Step-sent {t} (receive s rest k full left e) p =
    rw (e, append_assoc t.statuses (s ∷ []) rest) (rw full at p)
Step-sent (settle zero_left open_ e) p = rw e p
Step-sent (close s d x e) p = rw e p

Step-counted :
    {n : ℕ} {t u : Run}
    → Step t u
    → t.pending + length t.statuses ≡ n
    → u.pending + length u.statuses ≡ n
Step-counted (return before after w r split run e) h = ground arith
Step-counted (send before after w signal split phase offered e) h = ground arith
Step-counted (leave before after w s v split phase stands e) h = ground arith
Step-counted {t} (receive s rest k full left e) h =
    rw e (omega (arith, length-append t.statuses (s ∷ [])))
Step-counted (settle zero_left open_ e) h = ground arith
Step-counted (close s d x e) h = ground arith

pub All-middle {ℓ} :
    (P : Worker → Type ℓ) (before : List Worker) (w : Worker) (after : List Worker)
    → All P (before ++ w ∷ after)
    → P w
All-middle P [] w after h = h.0
All-middle P (_ ∷ before) w after h = All-middle P before w after h.1

pub All-replace {ℓ} :
    (P : Worker → Type ℓ) (before after : List Worker) (v w : Worker)
    → All P (before ++ v ∷ after)
    → P w
    → All P (before ++ w ∷ after)
All-replace P [] after v w h p = (p, h.1)
All-replace P (_ ∷ before) after v w h p = (h.0, All-replace P before after v w h.1 p)

launched-ne-exited : (s : ComponentStatus) → launched ≢ exited s
launched-ne-exited s h = cc

waiting-ne-exited : (r s : ComponentStatus) → waiting r ≢ exited s
waiting-ne-exited r s h = cc

-- A worker that has not left refutes that all have.
not-HasExited :
    {ws : List Worker} (before after : List Worker) (w : Worker)
    → ws ≡ before ++ w ∷ after
    → ((s : ComponentStatus) → w.phase ≢ exited s)
    → ¬ All HasExited ws
not-HasExited before after w split busy all =
    let (s, e) = All-middle HasExited before w after (rw split at all) in busy s e

Step-sized : {n : ℕ} {t u : Run} → Step t u → length t.workers ≡ n → length u.workers ≡ n
Step-sized (return before after w r split run e) h =
    rw e (length-replace before after _ w ∙ rw split at h)
Step-sized (send before after w signal split phase offered e) h =
    rw e (length-replace before after _ w ∙ rw split at h)
Step-sized (leave before after w s v split phase stands e) h =
    rw e (length-replace before after _ w ∙ rw split at h)
Step-sized (receive s rest k full left e) h = rw e h
Step-sized (settle zero_left open_ e) h = rw e h
Step-sized (close s d x e) h = rw e h

Step-settled_last :
    {t u : Run} → Step t u → (t.settled ≡ true → t.pending ≡ 0) → u.settled ≡ true → u.pending ≡ 0
Step-settled_last (return before after w r split run e) h k = ground arith
Step-settled_last (send before after w signal split phase offered e) h k = ground arith
Step-settled_last (leave before after w s v split phase stands e) h k = ground arith
Step-settled_last (receive s rest m full left e) h k = ground arith
Step-settled_last (settle zero_left open_ e) h k = ground arith
Step-settled_last (close s d x e) h k = ground arith

Step-settled_state :
    {t u : Run}
    → Step t u
    → (t.settled ≡ true → t.pending ≡ 0)
    → (t.settled ≡ true → t.state ≡ aggregate none t.statuses)
    → u.settled ≡ true
    → u.state ≡ aggregate none u.statuses
Step-settled_state (return before after w r split run e) l h k = ground arith
Step-settled_state (send before after w signal split phase offered e) l h k = ground arith
Step-settled_state (leave before after w s v split phase stands e) l h k = ground arith
Step-settled_state (receive s rest m full left e) l h k = ground arith
Step-settled_state (settle zero_left open_ e) l h k = ground arith
Step-settled_state (close s d x e) l h k = ground arith

Step-done_last :
    {t u : Run}
    → Step t u
    → (t.done ≡ true → All HasExited t.workers)
    → u.done ≡ true
    → All HasExited u.workers
Step-done_last (return before after w r split run e) h k = rw e (
    All-replace HasExited before after w (record w { starting = returned r })
      (rw split at (h (ap (λ (t : Run). t.done) (sym e) ∙ k)))
      (All-middle HasExited before w after
        (rw split at (h (ap (λ (t : Run). t.done) (sym e) ∙ k)))))
Step-done_last {t} (send before after w signal split phase offered e) h k = absurd (
    not-HasExited before after w split (λ s f. launched-ne-exited s (sym phase ∙ f))
      (h (ap (λ (r : Run). r.done) (sym e) ∙ k)))
Step-done_last (leave before after w s v split phase stands e) h k = absurd (
    not-HasExited before after w split (λ r f. waiting-ne-exited s r (sym phase ∙ f))
      (h (ap (λ (r : Run). r.done) (sym e) ∙ k)))
Step-done_last (receive s rest m full left e) h k = rw e (h (ap (λ (r : Run). r.done) (sym e) ∙ k))
Step-done_last (settle zero_left open_ e) h k = rw e (h (ap (λ (r : Run). r.done) (sym e) ∙ k))
Step-done_last (close s d x e) h k = rw e x

IsOpen-returned : (p : Phase) (e : Option Error) → IsOpen p (returned e)
IsOpen-returned launched e = tt
IsOpen-returned (waiting s) e = tt
IsOpen-returned (exited s) e = tt

select-IsOpen :
    (name : Text) (signal : Signal) (s : Starting)
    → IsOpen launched s
    → IsOpen (select name signal).0 (taken_by signal s)
unfolding select taken_by
select-IsOpen name (ready e) running h = tt
select-IsOpen name (ready e) (returned r) h = tt
select-IsOpen name (cancelled e) running h = tt
select-IsOpen name (cancelled e) (returned r) h = tt
select-IsOpen name (stopped e) s h = tt
select-IsOpen name (ready e) taken h = h
select-IsOpen name (cancelled e) taken h = h

IsOpen-waiting : (r : ComponentStatus) (s : Starting) → IsOpen launched s → IsOpen (waiting r) s
IsOpen-waiting r running h = tt
IsOpen-waiting r (returned e) h = tt
IsOpen-waiting r taken h = h

IsOpen-reported :
    (b : Bool) (name : Text) (signal : Signal) (s : Starting)
    → IsOpen launched s
    → IsOpen
        (if b then select name signal else (let r = status name true none in (waiting r, r))).0
        (if b then taken_by signal s else s)
IsOpen-reported true name signal s h = select-IsOpen name signal s h
IsOpen-reported false name signal s h = IsOpen-waiting (status name true none) s h

reported-Awaits :
    (w : Worker) (signal : Signal) → w.phase ≡ launched → Awaits w → Awaits (reported w signal)
unfolding reported report
reported-Awaits w signal phase h =
    IsOpen-reported w.has_ready w.name signal w.starting (rw phase at h)

Step-awaited : {t u : Run} → Step t u → All Awaits t.workers → All Awaits u.workers
Step-awaited (return before after w r split run e) h =
    rw e (All-replace Awaits before after w _ (rw split at h) (IsOpen-returned w.phase r))
Step-awaited (send before after w signal split phase offered e) h = rw e (
    All-replace Awaits before after w _ (rw split at h)
      (reported-Awaits w signal phase (All-middle Awaits before w after (rw split at h))))
Step-awaited (leave before after w s v split phase stands e) h =
    rw e (All-replace Awaits before after w _ (rw split at h) tt)
Step-awaited (receive s rest k full left e) h = rw e h
Step-awaited (settle zero_left open_ e) h = rw e h
Step-awaited (close s d x e) h = rw e h

pub Step-IsConsistent : {n : ℕ} {t u : Run} → Step t u → IsConsistent n t → IsConsistent n u
Step-IsConsistent st c = record {
  sent = Step-sent st c.sent;
  counted = Step-counted st c.counted;
  sized = Step-sized st c.sized;
  settled_last = Step-settled_last st c.settled_last;
  settled_state = Step-settled_state st c.settled_last c.settled_state;
  awaited = Step-awaited st c.awaited;
  done_last = Step-done_last st c.done_last;
}

reports-launch : (components : List (Text × Bool)) → reports (launch components) ≡ []
unfolding launch
reports-launch [] = refl
reports-launch (_ ∷ components) = reports-launch components

length-launch : (components : List (Text × Bool)) → length (launch components) ≡ length components
unfolding launch
length-launch [] = refl
length-launch (_ ∷ components) = ap suc (length-launch components)

launch-Awaits : (components : List (Text × Bool)) → All Awaits (launch components)
unfolding launch
launch-Awaits [] = tt
launch-Awaits (_ ∷ components) = (tt, launch-Awaits components)

pub start-IsConsistent :
    (components : List (Text × Bool)) → IsConsistent (length components) (start components)
unfolding start
start-IsConsistent components = record {
  sent = rw (reports-launch components) (Perm.refl []);
  counted = omega arith;
  sized = length-launch components;
  settled_last = λ h. cc;
  settled_state = λ h. cc;
  awaited = launch-Awaits components;
  done_last = λ h. cc;
}

pub Reach-IsConsistent : {n : ℕ} {t u : Run} → Reach t u → IsConsistent n t → IsConsistent n u
Reach-IsConsistent here c = c
Reach-IsConsistent (next r st) c = Step-IsConsistent st (Reach-IsConsistent r c)
