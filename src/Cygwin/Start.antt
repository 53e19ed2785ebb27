-- ===== src/Cygwin/Start.antt =====
-- internal/interfaces/cygwin/cygwin_windows.go: `Start`. The listener is the port that it got and
-- what its `Accept` returns in turn; with the end of that list `Start` waits for a client.
use omni_sshagent.Base.{
  ℕ, Bool, true, false, List, [], ◌∷◌, Option, none, some, Result, ok, err, ◌≡◌, ◌≢◌, ◌⊎◌, inl, inr,
  refl,
}
use omni_sshagent.Base.Text.{Text}
use omni_sshagent.Files.{OsError, Bytes, FileSystem}
use omni_sshagent.Interfaces.{Ready, report_ready, report_result, Outcome, waiting, returned}
use omni_sshagent.Cygwin.Handshake.{Client}
use omni_sshagent.Cygwin.SocketFiles.{
  Host, SocketError, mkdir_failed, listen_failed, nonce_failed, accept_failed, prepare_existing,
  write_files, cleanup,
}

-- What `Accept` returns; an error comes with whether the context is done.
pub data Accepted : Type 0 where
  connected : Client → Accepted
  failed : Bool → OsError → Accepted

pub record Network : Type 0 where
  pub listen : Result OsError ℕ
  pub random : Result OsError Bytes
  pub accepts : List Accepted

module _ (fs : FileSystem) (host : Host) (path : Text) (base : Text → Text) where
  open fs use {World}

  pub record Started : Type 0 where
    pub world : fs.World
    pub ready : Ready SocketError
    pub outcome : Outcome SocketError
    pub clients : List Client
    pub nonce : Option Bytes

  -- The loop over `Accept`: the clients that were handed over, and the end.
  serve_clients : List Accepted → List Client × Outcome SocketError
  serve_clients [] = ([], waiting)
  serve_clients (connected c ∷ accepts) = let (cs, o) = serve_clients accepts in (c ∷ cs, o)
  serve_clients (failed true e ∷ accepts) = ([], returned none)
  serve_clients (failed false e ∷ accepts) = ([], returned (some (accept_failed e)))

  -- The deferred calls, last first: `cleanup` if it was registered, then the report of an error.
  stop : Bytes → List Client → Outcome SocketError → Ready SocketError → World → Started
  stop nonce cs waiting ready w = record {
    world = w;
    ready = ready;
    outcome = waiting;
    clients = cs;
    nonce = some nonce;
  }
  stop nonce cs (returned e) ready w = record {
    world = cleanup fs host path nonce w;
    ready = report_result e ready;
    outcome = returned e;
    clients = cs;
    nonce = some nonce;
  }

  fail : SocketError → World → Started
  fail e w = record {
    world = w;
    ready = report_result (some e) none;
    outcome = returned (some e);
    clients = [];
    nonce = none;
  }

  written : Bytes → List Accepted → World × Option SocketError → Started
  unfolding serve_clients stop fail
  written nonce accepts (w, some x) = fail x w
  written nonce accepts (w, none) =
      let (cs, o) = serve_clients accepts in stop nonce cs o (report_ready none none) w

  run : ℕ → Bytes → List Accepted → World → Started
  unfolding written
  run port nonce accepts w = written nonce accepts (write_files fs host path base port nonce w)

  listen_and_run : Network → World → Started
  unfolding run fail
  listen_and_run net w = elim net.listen [
    | err x ↦ fail (listen_failed x) w
    | ok port ↦ elim net.random [
      | err x ↦ fail (nonce_failed x) w
      | ok nonce ↦ run port nonce net.accepts w
    ]
  ]

  made_directory : Network → World × Option OsError → Started
  unfolding listen_and_run fail
  made_directory net (w, some x) = fail (mkdir_failed x) w
  made_directory net (w, none) = listen_and_run net w

  prepared : Network → World × Option SocketError → Started
  unfolding made_directory fail
  prepared net (w, some x) = fail x w
  prepared net (w, none) = made_directory net (fs.mkdir_all (fs.dir path) w)

  unfoldable pub start : Network → World → Started
  unfolding prepared
  start net w = prepared net (prepare_existing fs host path w)

  -- One report on `ready`: no error if the clients are served, else the error that is returned.
  abbrev pub IsReported : Started → Type 0
  IsReported s =
      ((s.ready ≡ some none) × (s.nonce ≢ none))
      ⊎ ((e : SocketError) × (s.ready ≡ some (some e))
          × (s.outcome ≡ returned (some e))
          × (s.clients ≡ [])
          × (s.nonce ≡ none))

  fail-IsReported : (e : SocketError) (w : World) → IsReported (fail e w)
  unfolding fail report_result
  fail-IsReported e w = inr (e, refl, refl, refl, refl)

  stop-IsReported :
      (nonce : Bytes) (cs : List Client) (o : Outcome SocketError) (w : World)
      → IsReported (stop nonce cs o (report_ready none none) w)
  unfolding stop report_result report_ready
  stop-IsReported nonce cs waiting w = inl (refl, λ h. cc)
  stop-IsReported nonce cs (returned none) w = inl (refl, λ h. cc)
  stop-IsReported nonce cs (returned (some e)) w = inl (refl, λ h. cc)

  written-IsReported :
      (nonce : Bytes) (accepts : List Accepted) (r : World × Option SocketError)
      → IsReported (written nonce accepts r)
  unfolding written
  written-IsReported nonce accepts (w, none) = stop-IsReported nonce _ _ w
  written-IsReported nonce accepts (w, some x) = fail-IsReported x w

  listen_and_run-IsReported : (net : Network) (w : World) → IsReported (listen_and_run net w)
  unfolding listen_and_run
  listen_and_run-IsReported net w = go net.listen net.random
    where
      go :
          (l : Result OsError ℕ) (n : Result OsError Bytes)
          → IsReported (listen_and_run (record net { listen = l; random = n }) w)
      go (err x) n = fail-IsReported (listen_failed x) w
      go (ok port) (err x) = fail-IsReported (nonce_failed x) w
      go (ok port) (ok nonce) = unfold run in written-IsReported nonce net.accepts _

  made_directory-IsReported :
      (net : Network) (r : World × Option OsError) → IsReported (made_directory net r)
  unfolding made_directory
  made_directory-IsReported net (w, none) = listen_and_run-IsReported net w
  made_directory-IsReported net (w, some x) = fail-IsReported (mkdir_failed x) w

  prepared-IsReported :
      (net : Network) (r : World × Option SocketError) → IsReported (prepared net r)
  unfolding prepared
  prepared-IsReported net (w, none) = made_directory-IsReported net _
  prepared-IsReported net (w, some x) = fail-IsReported x w

  -- Whatever fails, `Start` reports just once on `ready`: the error that it returns, if it fails
  -- before the files are written, and then no client was served; no error, if it serves clients.
  pub start-IsReported : (net : Network) (w : World) → IsReported (start net w)
  unfolding start
  start-IsReported net w = prepared-IsReported net (prepare_existing fs host path w)
