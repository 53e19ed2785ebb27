-- ===== src/Legacy/PipeClient.antt =====
-- old/pkg/namedpipe/client.go: the agent behind the named pipe. Each operation dials, calls, and
-- closes; the lock makes it one step.
use omni_sshagent.Base.{ℕ, List, [], ◌∷◌, ◌++◌, Option, none, some, Result, ok, err, ◌≡◌, refl, ap}
use omni_sshagent.Base.Text.{Text, codes}
use omni_sshagent.Files.{Bytes}

abbrev pipe_path : Text
pipe_path = codes "\\\\.\\pipe\\openssh-ssh-agent"

-- The client of golang.org/x/crypto/ssh/agent on a connection, and go-winio.
pub record Remote : Type 1 where
  pub World : Type 0
  pub Conn : Type 0
  pub SshKey : Type 0
  pub Signer : Type 0
  pub dial_pipe : World → World × Result Text Conn
  pub close_conn : Conn → World → World × Option Text
  pub list_keys : Conn → World → World × Result Text (List SshKey)
  pub sign_data : Conn → SshKey → Bytes → World → World × Result Text Bytes
  pub add_key : Conn → Bytes → World → World × Result Text Bytes
  pub remove_key : Conn → SshKey → World → World × Result Text Bytes
  pub remove_keys : Conn → World → World × Result Text Bytes
  pub lock_agent : Conn → Bytes → World → World × Result Text Bytes
  pub unlock_agent : Conn → Bytes → World → World × Result Text Bytes
  pub signers_of : Conn → World → World × Result Text (List Signer)
  pub sign_flags : Conn → SshKey → Bytes → ℕ → World → World × Result Text Bytes
  pub extend : Conn → Text → Bytes → World → World × Result Text Bytes

module _ (remote : Remote) where
  -- `NamedPipeClient`; `opened` and `closed` record the connections for the theorem.
  pub record Client : Type 0 where
    pub conn : Option remote.Conn
    pub opened : List remote.Conn
    pub closed : List remote.Conn
    pub world : remote.World

  dialled : Client → remote.World × Result Text remote.Conn → Client × Result Text remote.Conn
  dialled a (w, ok c) = (record a { world = w; conn = some c; opened = a.opened ++ c ∷ [] }, ok c)
  dialled a (w, err e) = (
    record a { world = w; conn = none },
    err (codes "Failed open named-pipe " ++ pipe_path ++ codes ", err:" ++ e),
  )

  unfoldable pub dial : Client → Client × Result Text remote.Conn
  unfolding dialled
  dial a = elim a.conn [ some c ↦ (a, ok c) | none ↦ dialled a (remote.dial_pipe a.world) ]

  unfoldable pub close_client : Client → Client
  close_client a = elim a.conn [
    | none ↦ a
    | some c ↦ record a {
      conn = none;
      closed = a.closed ++ c ∷ [];
      world = (remote.close_conn c a.world).0;
    }
  ]

  -- One operation between `dial` and the deferred `Close`.
  operate :
      {A : Type 0}
      → (remote.Conn → remote.World → remote.World × Result Text A)
      → Client × Result Text remote.Conn
      → Client × Result Text A
  unfolding close_client
  operate f (a, err e) = (a, err e)
  operate f (a, ok c) = let (w, r) = f c a.world in (close_client (record a { world = w }), r)

  unfoldable pub call :
      {A : Type 0}
      → (remote.Conn → remote.World → remote.World × Result Text A)
      → Client
      → Client × Result Text A
  unfolding operate dial
  call f a = operate f (dial a)

  unfoldable pub list : Client → Client × Result Text (List remote.SshKey)
  unfolding call
  list = call remote.list_keys

  unfoldable pub sign : remote.SshKey → Bytes → Client → Client × Result Text Bytes
  unfolding call
  sign key b = call (λ c. remote.sign_data c key b)

  unfoldable pub add : Bytes → Client → Client × Result Text Bytes
  unfolding call
  add key = call (λ c. remote.add_key c key)

  unfoldable pub remove : remote.SshKey → Client → Client × Result Text Bytes
  unfolding call
  remove key = call (λ c. remote.remove_key c key)

  unfoldable pub remove_all : Client → Client × Result Text Bytes
  unfolding call
  remove_all = call remote.remove_keys

  unfoldable pub lock : Bytes → Client → Client × Result Text Bytes
  unfolding call
  lock passphrase = call (λ c. remote.lock_agent c passphrase)

  unfoldable pub unlock : Bytes → Client → Client × Result Text Bytes
  unfolding call
  unlock passphrase = call (λ c. remote.unlock_agent c passphrase)

  unfoldable pub signers : Client → Client × Result Text (List remote.Signer)
  unfolding call
  signers = call remote.signers_of

  unfoldable pub sign_with_flags : remote.SshKey → Bytes → ℕ → Client → Client × Result Text Bytes
  unfolding call
  sign_with_flags key b flags = call (λ c. remote.sign_flags c key b flags)

  unfoldable pub extension : Text → Bytes → Client → Client × Result Text Bytes
  unfolding call
  extension name contents = call (λ c. remote.extend c name contents)

  -- No connection is held, and every one that was opened was closed.
  abbrev pub Rests : Client → Type 0
  Rests a = (a.conn ≡ none) × (a.opened ≡ a.closed)

  operate-dialled-Rests :
      {A : Type 0} (f : remote.Conn → remote.World → remote.World × Result Text A) (a : Client)
      (p : remote.World × Result Text remote.Conn)
      → Rests a
      → Rests (operate f (dialled a p)).0
  unfolding operate dialled close_client
  operate-dialled-Rests f a (w, ok c) h = (refl, ap (λ (l : List remote.Conn). l ++ c ∷ []) h.1)
  operate-dialled-Rests f a (w, err e) h = (refl, h.1)

  -- Every operation, whether it succeeds or not, closes the connection that it opens.
  pub call-Rests :
      {A : Type 0} (f : remote.Conn → remote.World → remote.World × Result Text A) (a : Client)
      → Rests a
      → Rests (call f a).0
  unfolding call dial
  call-Rests f a h = rw (h.0, call, dial) (operate-dialled-Rests f a (remote.dial_pipe a.world) h)
