-- ===== src/Backend.antt =====
-- internal/backend: the errors of errors.go, the client of openssh/client_windows.go and the
-- embedded backend of embedded/backend.go. The agent of golang.org/x/crypto/ssh/agent and the
-- dialer are parameters.
pub mod Client
pub mod Embedded
use omni_sshagent.Base.{Bool, true, false, ◌&&◌, Option, none, some, List, [], ◌∷◌, ◌++◌}
use omni_sshagent.Base.Text.{Text, codes, equal}

-- The constants of `ErrorKind`.
pub data ErrorKind : Type 0 where
  unavailable timeout protocol : ErrorKind

abbrev pub kind_text : ErrorKind → Text
kind_text unavailable = codes "unavailable"
kind_text timeout = codes "timeout"
kind_text protocol = codes "protocol"

abbrev pub same_kind : ErrorKind → ErrorKind → Bool
same_kind unavailable unavailable = true
same_kind timeout timeout = true
same_kind protocol protocol = true
same_kind _ _ = false

-- An `error`: a plain message, one that wraps a cause, or an `Error` of this package.
pub data Error : Type 0 where
  plain : Text → Error
  wrapped : Text → Error → Error
  backend_error : ErrorKind → Text → Error → Error

-- `Error()`
unfoldable pub message : Error → Text
message (plain s) = s
message (wrapped s e) = s ++ (codes ": " ++ message e)
message (backend_error k op e) =
    kind_text k ++ (codes " backend " ++ (op ++ (codes ": " ++ message e)))

-- `IsKind`: `errors.As` stops at the first `Error` of the chain.
unfoldable pub is_kind : Error → ErrorKind → Bool
is_kind (plain s) k = false
is_kind (wrapped s e) k = is_kind e k
is_kind (backend_error k' op e) k = same_kind k' k
