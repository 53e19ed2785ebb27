-- ===== src/Control.antt =====
-- internal/control/shutdown_windows.go: the event that asks for a shutdown. A handle is a number,
-- and 0 is none; the calls of Windows are their answers.
use omni_sshagent.Base.{
  ℕ, Bool, true, false, List, [], ◌∷◌, Option, none, some, Result, ok, err, ◌≡◌, ◌⊎◌, inl, inr,
  refl, if◌then◌else◌, ◌==◌,
}
use omni_sshagent.Files.{OsError}

pub data EventError : Type 0 where
  name_failed create_failed open_failed signal_failed wait_failed cancelled : OsError → EventError

-- `NewShutdownEvent`: the handle of the event.
unfoldable pub new_event : Option OsError → Result OsError ℕ → Result EventError ℕ
new_event (some e) created = err (name_failed e)
new_event none (err e) = err (create_failed e)
new_event none (ok h) = ok h

-- What `OpenEvent` returns; the event of an application that does not run is not found.
pub data Opened : Type 0 where
  not_found : Opened
  refused : OsError → Opened
  opened : ℕ → Opened

pub data Call : Type 0 where
  set_event close_handle : ℕ → Call

open_event : Opened → Option OsError → Result EventError Bool × List Call
open_event not_found set = (ok false, [])
open_event (refused e) set = (err (open_failed e), [])
open_event (opened h) (some e) = (err (signal_failed e), set_event h ∷ close_handle h ∷ [])
open_event (opened h) none = (ok true, set_event h ∷ close_handle h ∷ [])

-- `RequestShutdown`: its results, and what it does with the handle.
unfoldable pub request_shutdown :
    Option OsError → Opened → Option OsError → Result EventError Bool × List Call
unfolding open_event
request_shutdown (some e) event set = (err (name_failed e), [])
request_shutdown none event set = open_event event set

-- One round of `Wait`: how the wait of 100 milliseconds ends, and whether the context is done then.
pub data Round : Type 0 where
  broken : OsError → Round
  signalled : Round
  elapsed : Option OsError → Round

-- `Wait` over the rounds, none as long as it waits.
unfoldable pub wait : List Round → Option (Option EventError)
wait [] = none
wait (broken e ∷ rounds) = some (some (wait_failed e))
wait (signalled ∷ rounds) = some none
wait (elapsed (some e) ∷ rounds) = some (some (cancelled e))
wait (elapsed none ∷ rounds) = wait rounds

-- `Close`
unfoldable pub close : ℕ → ℕ × List Call
close h = if h == 0 then (0, []) else (0, close_handle h ∷ [])

-- `RequestShutdown` returns true exactly where the event was opened and set without an error; the
-- handle that it has opened it closes, last, whether the event could be set or not.
pub request_shutdown_signals :
    (name : Option OsError) (event : Opened) (set : Option OsError)
    → ((h : ℕ) × (name ≡ none)
        × (event ≡ opened h)
        × ((request_shutdown name event set).1 ≡ set_event h ∷ close_handle h ∷ [])
        × (((set ≡ none) × ((request_shutdown name event set).0 ≡ ok true))
            ⊎ ((e : OsError) × (set ≡ some e)
                × ((request_shutdown name event set).0 ≡ err (signal_failed e)))))
      ⊎ (((request_shutdown name event set).1 ≡ [])
          × (((request_shutdown name event set).0 ≡ ok false)
              ⊎ ((e : EventError) × ((request_shutdown name event set).0 ≡ err e))))
unfolding request_shutdown
request_shutdown_signals (some e) event set = inr (refl, inr (name_failed e, refl))
request_shutdown_signals none not_found set = inr (refl, inl refl)
request_shutdown_signals none (refused e) set = inr (refl, inr (open_failed e, refl))
request_shutdown_signals none (opened h) none = inl (h, refl, refl, refl, inl (refl, refl))
request_shutdown_signals none (opened h) (some e) = inl (h, refl, refl, refl, inr (e, refl, refl))
