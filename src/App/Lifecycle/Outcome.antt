-- ===== src/App/Lifecycle/Outcome.antt =====
-- What holds of every run of internal/app/application.go, whatever the goroutines do.
use mathlib.Core.List.{append-nil}
use omni_sshagent.Base.{
  ◌+◌, ◌≤◌, Bool, true, List, [], ◌∷◌, none, ◌≡◌, refl, sym, ap, ◌∙◌, arith, All, length,
  length-append,
}
use omni_sshagent.Base.Text.{Text}
use omni_sshagent.App.{ComponentStatus, aggregate}
use omni_sshagent.App.Order.{aggregate-Perm}
use omni_sshagent.App.Lifecycle.{Run, start, HasExited, Reach}
use omni_sshagent.App.Lifecycle.Inv.{
  reports, length-reports, length-Perm, Reach-IsConsistent, start-IsConsistent,
}

-- However the goroutines interleave, the channel `results` never holds more statuses than its
-- capacity, the number of components, and as long as a worker has still to send there is room.
pub results_bounded :
    (components : List (Text × Bool)) {t : Run}
    → Reach (start components) t
    → length t.results + length t.statuses ≤ length components
results_bounded components {t} r =
    let c = Reach-IsConsistent r (start-IsConsistent components) in
    omega (
      arith,
      length-Perm c.sent,
      length-append t.statuses t.results,
      length-reports t.workers,
      c.sized,
    )

length-eq-zero : (l : List ComponentStatus) → length l ≡ 0 → l ≡ []
length-eq-zero [] h = refl
length-eq-zero (_ ∷ l) h = absurd (omega arith)

-- In whatever order the components report, the state that `Run` sets is that of `Aggregate` on
-- the statuses which the components sent, taken in the order of the components, and every
-- component has sent one.
pub settled-aggregate :
    (components : List (Text × Bool)) {t : Run}
    → Reach (start components) t
    → t.settled ≡ true
    → (t.state ≡ aggregate none (reports t.workers))
      × (length (reports t.workers) ≡ length components)
settled-aggregate components {t} r h =
    let c = Reach-IsConsistent r (start-IsConsistent components) in
    let size = length-Perm c.sent in
    let none_left : t.results ≡ [] = length-eq-zero t.results (
      omega (
        arith,
        size,
        length-append t.statuses t.results,
        length-reports t.workers,
        c.sized,
        c.counted,
        c.settled_last h,
      )) in
    (
      c.settled_state h ∙ sym (aggregate-Perm (rw (none_left, append-nil) at c.sent)),
      omega (
        arith,
        size,
        length-append t.statuses t.results,
        ap length none_left,
        c.counted,
        c.settled_last h,
      ),
    )

-- `done` is closed only after every worker has left.
pub done-HasExited :
    (components : List (Text × Bool)) {t : Run}
    → Reach (start components) t
    → t.done ≡ true
    → All HasExited t.workers
done-HasExited components r = (Reach-IsConsistent r (start-IsConsistent components)).done_last
