-- ===== src/Pageant/Start.antt =====
-- internal/interfaces/pageant/pageant_windows.go: `Start`. The calls of Windows are their answers;
-- with the end of the messages `Start` waits for the next one.
use omni_sshagent.Base.{
  ℕ, suc, Bool, true, false, List, [], ◌∷◌, Option, none, some, ◌≡◌, ◌⊎◌, inl, inr, refl, arith,
  if◌then◌else◌,
}
use omni_sshagent.Files.{OsError}
use omni_sshagent.Interfaces.{Ready, report_ready, report_result, Outcome, waiting, returned}

pub data StartError : Type 0 where
  already_active window_conflict : StartError
  no_module class_conflict no_window no_message : OsError → StartError

-- What `GetMessageW` returns in turn.
pub data Message : Type 0 where
  other : Message
  quit : Message
  failed : OsError → Message

pub record Windows : Type 0 where
  pub module_handle : Option OsError
  pub window_exists : Bool
  pub register_class : Option OsError
  pub create_window : Option OsError
  pub messages : List Message

-- The component in `active`, whether its window stands, and what `Start` has reported.
pub record Started : Type 0 where
  pub active : Bool
  pub has_window : Bool
  pub ready : Ready StartError
  pub outcome : Outcome StartError
  pub dispatched : ℕ

-- The message loop: how many messages were dispatched, and its end.
unfoldable pub message_loop : List Message → ℕ × Outcome StartError
message_loop [] = (0, waiting)
message_loop (other ∷ messages) = let (n, o) = message_loop messages in (suc n, o)
message_loop (quit ∷ messages) = (0, returned none)
message_loop (failed e ∷ messages) = (0, returned (some (no_message e)))

-- The deferred calls: the window is destroyed, and `active` is released.
finish : ℕ → Outcome StartError → Ready StartError → Started
finish n waiting ready = record {
  active = true;
  has_window = true;
  ready = ready;
  outcome = waiting;
  dispatched = n;
}
finish n (returned e) ready = record {
  active = false;
  has_window = false;
  ready = report_result e ready;
  outcome = returned e;
  dispatched = n;
}

-- Once the window stands.
run_window : List Message → Started
unfolding message_loop finish
run_window messages = let (n, o) = message_loop messages in finish n o (report_ready none none)

fail : StartError → Started
unfolding finish
fail e = finish 0 (returned (some e)) none

create : Windows → Started
unfolding run_window fail
create w = elim w.create_window [ some e ↦ fail (no_window e) | none ↦ run_window w.messages ]

register : Windows → Started
unfolding create fail
register w = elim w.register_class [ some e ↦ fail (class_conflict e) | none ↦ create w ]

find_existing : Windows → Started
unfolding register fail
find_existing w = if w.window_exists then fail window_conflict else register w

-- An `active` component of another `Start` is left alone.
unfoldable pub start : Bool → Windows → Started
unfolding find_existing fail
start true w = record (fail already_active) { active = true }
start false w = elim w.module_handle [ some e ↦ fail (no_module e) | none ↦ find_existing w ]

-- How `Start` may stand: it waits for messages, holds its slot and its window and has reported that
-- it is ready; or it has returned, has given both back and has reported once.
abbrev pub IsReleased : Started → Type 0
IsReleased s =
    ((s.outcome ≡ waiting) × (s.active ≡ true) × (s.has_window ≡ true) × (s.ready ≡ some none))
    ⊎ ((e : Option StartError) × (s.outcome ≡ returned e)
        × (s.active ≡ false)
        × (s.has_window ≡ false)
        × ((s.ready ≡ some none) ⊎ (s.ready ≡ some e)))

finish-IsReleased : (n : ℕ) (o : Outcome StartError) → IsReleased (finish n o (some none))
unfolding finish report_result report_ready
finish-IsReleased n waiting = inl (refl, refl, refl, refl)
finish-IsReleased n (returned none) = inr (none, refl, refl, refl, inl refl)
finish-IsReleased n (returned (some e)) = inr (some e, refl, refl, refl, inl refl)

run_window-IsReleased : (messages : List Message) → IsReleased (run_window messages)
unfolding run_window report_ready
run_window-IsReleased messages =
    finish-IsReleased (message_loop messages).0 (message_loop messages).1

fail-IsReleased : (e : StartError) → IsReleased (fail e)
unfolding fail finish report_result report_ready
fail-IsReleased e = inr (some e, refl, refl, refl, inr refl)

-- When no component is active, then on every path of `Start`, however the calls of Windows answer,
-- the slot `active` and the window are given back as soon as it returns, and it has reported once;
-- while it waits for messages it holds both and has reported that it is ready.
pub start-IsReleased : (w : Windows) → IsReleased (start false w)
unfolding start find_existing register create
start-IsReleased w = grind (arith, run_window-IsReleased w.messages, fail-IsReleased)
