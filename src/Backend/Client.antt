-- ===== src/Backend/Client.antt =====
-- internal/backend/openssh/client_windows.go: each call opens a connection of its own, makes one
-- call of the agent over it, and closes it.
use omni_sshagent.Base.{
  not, Option-cases, Bool, false, List, [], ◌∷◌, ◌++◌, Option, none, some, ◌≡◌, arith,
  if◌then◌else◌, Result, ok, err, inl, inr, ◌⊎◌,
}
use omni_sshagent.Base.Text.{Text, codes, has_prefix, has_prefix-append, trim_space, to_lower}
use omni_sshagent.Backend.{Error, unavailable, timeout, backend_error, is_kind}
use omni_sshagent.Config.{Platform, pipe_prefix, pipe_path}

-- `NormalizePipePath`
unfoldable pub normalize_pipe_path : Text → Text
normalize_pipe_path path = if has_prefix path pipe_prefix then path else pipe_prefix ++ path

-- What is done with the connections of the pipe: a dial, a call of the agent, and a close.
pub data Use (Call : Type 0) : Type 0 where
  dialed : Text → Use Call
  called : Call → Use Call
  closed : Use Call

-- The dialer fails with an error, which may be `context.DeadlineExceeded`; the remote agent answers
-- a call.
module _ {Call Reply : Type 0} (dial : Text → Option Error) (is_deadline : Error → Bool)
    (answer : Call → Result Error Reply) where
  unfoldable pub connect : Text → Option Error
  connect path = elim (dial path) [
    | none ↦ none
    | some e ↦
        some (backend_error (if is_deadline e then timeout else unavailable) (codes "connect") e)
  ]

  -- `List`, `Sign`, `SignWithFlags`, `Add`, `Remove`, `RemoveAll`, `Lock`, `Unlock`, `Signers` and
  -- `Extension`, which differ in the call only.
  unfoldable pub perform : Text → Call → List (Use Call) × Result Error Reply
  unfolding connect
  perform path call = elim (connect path) [
    | some e ↦ (dialed path ∷ [], err e)
    | none ↦ (dialed path ∷ called call ∷ closed ∷ [], answer call)
  ]

  -- A call that cannot connect is not made, and its error is of the kind `timeout` exactly if the
  -- dialer's deadline has passed, and else of the kind `unavailable`. Any other call is made once on
  -- a new connection, which is closed behind it whatever the agent answers.
  pub perform_once :
      (path : Text) (call : Call)
      → ((dial path ≡ none)
          × (perform path call ≡ (dialed path ∷ called call ∷ closed ∷ [], answer call)))
        ⊎ ((e : Error) × (f : Error) × (dial path ≡ some e)
            × (perform path call ≡ (dialed path ∷ [], err f))
            × (is_kind f timeout ≡ is_deadline e)
            × (is_kind f unavailable ≡ not (is_deadline e)))
  unfolding perform is_kind
  perform_once path call = elim (Option-cases (dial path)) [
    | inl h ↦ inl (h, ground (arith, h))
    | inr (e, h) ↦ inr (
      e,
      backend_error (if is_deadline e then timeout else unavailable) (codes "connect") e,
      h,
      ground (arith, h),
      ground arith,
      ground arith,
    )
  ]

-- The name of a pipe without a slash: `Validate` puts the prefix in front, and the client dials
-- just that path.
pub normalize-pipe_path_name :
    (platform : Platform) (text : Text) {pipe : Text}
    → pipe_path platform text ≡ ok pipe
    → has_prefix (to_lower platform.lower_other (trim_space text)) pipe_prefix ≡ false
    → (pipe ≡ pipe_prefix ++ trim_space text) × (normalize_pipe_path pipe ≡ pipe)
unfolding pipe_path normalize_pipe_path
normalize-pipe_path_name platform text h short =
    ground (arith, has_prefix-append pipe_prefix (trim_space text))
