-- ===== src/Legacy/Runs.antt =====
-- old/pkg/unix/unix.go, old/pkg/namedpipe/namedpipe.go and old/pkg/cygwinsocket/cygwinsocket.go: the
-- three `RunAgent`, with what they do to the file of the socket and to the listener.
use omni_sshagent.Base.{
  ℕ, zero, suc, Bool, List, [], ◌∷◌, Option, none, some, Result, ok, err, if◌then◌else◌, ◌≡◌, arith,
}
use omni_sshagent.Base.Text.{Text, codes, is_empty}
use omni_sshagent.Legacy.Listener.{Ending, returns_nil, waits, returns_error}

pub data RunError : Type 0 where
  home_failed remove_failed listen_failed socket_failed accept_error : Text → RunError

pub data Action : Type 0 where
  removed listening socket_made : Text → Action
  listener_closed : Action

-- What the code calls: package os and the listeners. A run is asked for each of them once.
pub record Calls : Type 0 where
  pub user_home : Result Text Text
  pub join_home : Text → Text
  -- `err == nil || !os.IsNotExist(err)` of `os.Stat`
  pub may_exist : Text → Bool
  pub remove : Text → Option Text
  pub listen : Text → Option Text
  -- `makeSocket`
  pub make_socket : Text → Option Text
  pub served : Ending

abbrev Ran : Type 0
Ran = List Action × Option RunError

-- One more action in front.
abbrev after : Action → Ran → Ran
after a (actions, e) = (a ∷ actions, e)

serve_error : Ending → Option RunError
serve_error returns_nil = none
serve_error waits = none
serve_error (returns_error e) = some (accept_error e)

module _ (calls : Calls) where
  -- Behind `Listen`, with the deferred `Close` of the listener.
  unfoldable pub serve_closing : List Action × Option RunError
  unfolding serve_error
  serve_closing = (listener_closed ∷ [], serve_error calls.served)

  unfoldable pub listen_on : Text → List Action × Option RunError → List Action × Option RunError
  listen_on path rest = elim (calls.listen path) [
    | some e ↦ ([], some (listen_failed e))
    | none ↦ after (listening path) rest
  ]

  -- The socket that is left from another run is removed first.
  unfoldable pub remove_stale : Text → List Action × Option RunError → List Action × Option RunError
  remove_stale path rest =
      if calls.may_exist path
      then elim (calls.remove path) [
        | some e ↦ ([], some (remove_failed e))
        | none ↦ after (removed path) rest
      ]
      else rest

  default_path : Text → Text → Result Text Text
  default_path path name =
      if is_empty path
      then elim calls.user_home [ ok home ↦ ok (calls.join_home name) | err e ↦ err e ]
      else ok path

  with_path :
      Result Text Text → (Text → List Action × Option RunError) → List Action × Option RunError
  with_path (err e) rest = ([], some (home_failed e))
  with_path (ok path) rest = rest path

  -- `DomainSock.RunAgent`
  unfoldable pub run_unix : Text → List Action × Option RunError
  unfolding serve_closing listen_on remove_stale default_path with_path
  run_unix path =
      with_path (default_path path (codes "OmniSSHAgent.sock"))
        (λ p. remove_stale p (listen_on p serve_closing))

  -- `NamedPipe.RunAgent`, on the path of the pipe.
  unfoldable pub run_named_pipe : Text → List Action × Option RunError
  unfolding serve_closing listen_on
  run_named_pipe path = listen_on path serve_closing

  -- The deferred `Close` stands behind `makeSocket`, which may return before it.
  make_then_serve : Text → List Action × Option RunError
  unfolding serve_closing
  make_then_serve path = elim (calls.make_socket path) [
    | some e ↦ ([], some (socket_failed e))
    | none ↦ after (socket_made path) serve_closing
  ]

  -- `CygwinSock.RunAgent`; the listener's own address is not the path.
  unfoldable pub run_cygwin : Text → List Action × Option RunError
  unfolding make_then_serve listen_on remove_stale default_path with_path
  run_cygwin path =
      with_path (default_path path (codes "OmniSSHcygwin.sock"))
        (λ p. remove_stale p (listen_on (codes "127.0.0.1:") (make_then_serve p)))

-- How many listeners are open behind some actions.
unfoldable pub left_open : List Action → ℕ → ℕ
left_open [] n = n
left_open (removed p ∷ actions) n = left_open actions n
left_open (socket_made p ∷ actions) n = left_open actions n
left_open (listening p ∷ actions) n = left_open actions (suc n)
left_open (listener_closed ∷ actions) (suc n) = left_open actions n
left_open (listener_closed ∷ actions) zero = left_open actions zero

module _ (calls : Calls) where
  -- A Unix socket's listener does not stay open, however the run ends.
  pub run_unix_closes : (path : Text) → left_open (run_unix calls path).0 0 ≡ 0
  unfolding run_unix remove_stale listen_on serve_closing left_open default_path with_path
  run_unix_closes path = ground arith

  pub run_named_pipe_closes : (path : Text) → left_open (run_named_pipe calls path).0 0 ≡ 0
  unfolding run_named_pipe listen_on serve_closing left_open
  run_named_pipe_closes path = ground arith

  -- The listener of the Cygwin socket stays open where the run ends in `makeSocket`.
  pub run_cygwin_leaks :
      (path : Text) (e : Text)
      → (run_cygwin calls path).1 ≡ some (socket_failed e)
      → left_open (run_cygwin calls path).0 0 ≡ 1
  unfolding run_cygwin remove_stale listen_on make_then_serve serve_closing left_open serve_error
      default_path with_path
  run_cygwin_leaks path e h = ground (arith, h)
