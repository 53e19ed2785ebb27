-- ===== src/App/Order.antt =====
-- `Aggregate` of internal/app/state.go on lists of statuses and on their rearrangements.
use mathlib.Core.List.{Perm, Permᴰ}
use mathlib.Core.Logic.{∥∥₁_elim}
use omni_sshagent.Base.{false, List, [], ◌∷◌, none, ◌≡◌, ◌↔◌, refl, arith, ◌∙◌, All}
use omni_sshagent.App.{State, running, ComponentStatus, is_failing, aggregate}

abbrev pub IsHealthy : ComponentStatus → Type 0
IsHealthy s = is_failing s ≡ false

-- Without a configuration error the state is `running` exactly when no enabled component fails.
pub aggregate-running :
    (statuses : List ComponentStatus) → (aggregate none statuses ≡ running) ↔ All IsHealthy statuses
unfolding aggregate
aggregate-running [] = (λ _. tt, λ _. refl)
aggregate-running (s ∷ statuses) = ground (arith, aggregate-running statuses)

State-set : IsSet State
State-set = hlevel

aggregate-cons :
    (s : ComponentStatus) (l m : List ComponentStatus)
    → aggregate none l ≡ aggregate none m
    → aggregate none (s ∷ l) ≡ aggregate none (s ∷ m)
unfolding aggregate
aggregate-cons s l m h = ground arith

aggregate_swap :
    (s t : ComponentStatus) (l : List ComponentStatus)
    → aggregate none (s ∷ t ∷ l) ≡ aggregate none (t ∷ s ∷ l)
unfolding aggregate
aggregate_swap s t l = ground arith

aggregate-Permᴰ : {l m : List ComponentStatus} → Permᴰ l m → aggregate none l ≡ aggregate none m
aggregate-Permᴰ Permᴰ.nil = refl
aggregate-Permᴰ (Permᴰ.cons {a} {l₁} {l₂} e p) =
    rw (← e) (aggregate-cons a l₁ l₂ (aggregate-Permᴰ p))
aggregate-Permᴰ (Permᴰ.swap {a} {b} {l} e f) = rw (← e, ← f) (aggregate_swap a b l)
aggregate-Permᴰ (Permᴰ.trans p q) = aggregate-Permᴰ p ∙ aggregate-Permᴰ q

-- The statuses arrive in any order, and `Aggregate` gives the same state.
pub aggregate-Perm : {l m : List ComponentStatus} → Perm l m → aggregate none l ≡ aggregate none m
aggregate-Perm p = ∥∥₁_elim p (State-set _ _) (λ d. aggregate-Permᴰ d)
