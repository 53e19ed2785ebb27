-- ===== src/Pipe.antt =====
-- internal/interfaces/opensshpipe/component_windows.go: `Start`, `handle` and
-- `pipeSecurityDescriptor`. The calls of Windows and of go-winio are their answers; with the end of
-- what `Accept` returns `Start` waits for a client.
use omni_sshagent.Base.{
  Bool, true, false, not, ◌&&◌, List, [], ◌∷◌, ◌++◌, Option, none, some, Result, ok, err, ◌≡◌, ◌⊎◌,
  inl, inr, refl, if◌then◌else◌,
}
use omni_sshagent.Base.Text.{Text, codes}
use omni_sshagent.Files.{OsError}
use omni_sshagent.Interfaces.{
  Ready, report_ready, report_result, Outcome, waiting, returned, Served, is_failure,
}

pub data PipeError : Type 0 where
  no_sid : PipeError
  no_user listen_failed accept_failed : OsError → PipeError

-- What the closer and `handle` find of the context while a client is served.
pub record Client : Type 0 where
  pub outcome : Served
  pub closed_early : Bool
  pub is_cancelled : Bool

pub data Accepted : Type 0 where
  connected : Client → Accepted
  failed : Bool → OsError → Accepted

-- The user of the process token, whose `Sid` may be missing, and the listener.
pub record Network : Type 0 where
  pub user : Result OsError (Option Text)
  pub listen : Option OsError
  pub accepts : List Accepted

-- `descriptor` is what the pipe was opened with, where it was.
pub record Started : Type 0 where
  pub ready : Ready PipeError
  pub outcome : Outcome PipeError
  pub clients : List Client
  pub descriptor : Option Text
  pub is_listening : Bool

unfoldable pub security_descriptor : Result OsError (Option Text) → Result PipeError Text
security_descriptor (err e) = err (no_user e)
security_descriptor (ok none) = err no_sid
security_descriptor (ok (some sid)) = ok (codes "D:P(A;;GA;;;SY)(A;;GA;;;" ++ (sid ++ codes ")"))

-- What is done with one connection.
pub data Action : Type 0 where
  serve warn close : Action

unfoldable pub handle : Bool → Client → List Action
handle has_logger c =
    serve
    ∷ ((if c.closed_early then close ∷ [] else [])
        ++ ((if is_failure c.outcome && not c.is_cancelled && has_logger then warn ∷ [] else [])
            ++ close ∷ []))

accept_loop : List Accepted → List Client × Outcome PipeError
accept_loop [] = ([], waiting)
accept_loop (connected c ∷ accepts) = let (cs, o) = accept_loop accepts in (c ∷ cs, o)
accept_loop (failed true e ∷ accepts) = ([], returned none)
accept_loop (failed false e ∷ accepts) = ([], returned (some (accept_failed e)))

fail : PipeError → Started
fail e = record {
  ready = report_result (some e) none;
  outcome = returned (some e);
  clients = [];
  descriptor = none;
  is_listening = false;
}

-- The deferred calls: the listener is closed, and an error is reported.
stop : Text → List Client → Outcome PipeError → Ready PipeError → Started
stop d cs waiting ready = record {
  ready = ready;
  outcome = waiting;
  clients = cs;
  descriptor = some d;
  is_listening = true;
}
stop d cs (returned e) ready = record {
  ready = report_result e ready;
  outcome = returned e;
  clients = cs;
  descriptor = some d;
  is_listening = false;
}

listen_and_serve : Network → Result PipeError Text → Started
unfolding accept_loop fail stop
listen_and_serve net (err e) = fail e
listen_and_serve net (ok d) = elim net.listen [
  | some e ↦ fail (listen_failed e)
  | none ↦ let (cs, o) = accept_loop net.accepts in stop d cs o (report_ready none none)
]

unfoldable pub start : Network → Started
unfolding listen_and_serve
start net = listen_and_serve net (security_descriptor net.user)

-- How `Start` may stand: it listens, or has listened and has closed the listener; or it has failed
-- before the pipe was opened.
abbrev pub IsGuarded : Network → Started → Type 0
IsGuarded net s =
    ((sid : Text) × (net.user ≡ ok (some sid))
      × (s.descriptor ≡ some (codes "D:P(A;;GA;;;SY)(A;;GA;;;" ++ (sid ++ codes ")")))
      × (s.ready ≡ some none)
      × (((s.outcome ≡ waiting) × (s.is_listening ≡ true))
          ⊎ ((e : Option PipeError) × (s.outcome ≡ returned e) × (s.is_listening ≡ false))))
    ⊎ ((e : PipeError) × (s.descriptor ≡ none)
        × (s.ready ≡ some (some e))
        × (s.outcome ≡ returned (some e))
        × (s.clients ≡ [])
        × (s.is_listening ≡ false))

fail-IsGuarded : (net : Network) (e : PipeError) → IsGuarded net (fail e)
unfolding fail report_result report_ready
fail-IsGuarded net e = inr (e, refl, refl, refl, refl, refl)

stop-IsGuarded :
    (net : Network) (sid d : Text) (cs : List Client) (o : Outcome PipeError)
    → net.user ≡ ok (some sid)
    → d ≡ codes "D:P(A;;GA;;;SY)(A;;GA;;;" ++ (sid ++ codes ")")
    → IsGuarded net (stop d cs o (some none))
unfolding stop report_result report_ready
stop-IsGuarded net sid d cs waiting u e = inl (sid, u, rw e refl, refl, inl (refl, refl))
stop-IsGuarded net sid d cs (returned none) u e =
    inl (sid, u, rw e refl, refl, inr (none, refl, refl))
stop-IsGuarded net sid d cs (returned (some x)) u e =
    inl (sid, u, rw e refl, refl, inr (some x, refl, refl))

-- The pipe is opened only with a descriptor that names the system and the user of this process. On
-- every path one value is reported: no error once the pipe is open, else the error that `Start`
-- returns, and then no client was served; when `Start` has returned the pipe is closed.
pub start-IsGuarded : (net : Network) → IsGuarded net (start net)
unfolding start listen_and_serve security_descriptor report_ready
start-IsGuarded net = go net.user refl net.listen refl
  where
    go :
        (u : Result OsError (Option Text))
        → net.user ≡ u
        → (l : Option OsError) → net.listen ≡ l
        → IsGuarded net (listen_and_serve net (security_descriptor u))
    go (err e) h l k = fail-IsGuarded net (no_user e)
    go (ok none) h l k = fail-IsGuarded net no_sid
    go (ok (some sid)) h (some e) k = rw k (fail-IsGuarded net (listen_failed e))
    go (ok (some sid)) h none k =
        rw k
          (stop-IsGuarded net sid _ (accept_loop net.accepts).0 (accept_loop net.accepts).1 h refl)
