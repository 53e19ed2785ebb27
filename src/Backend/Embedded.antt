-- ===== src/Backend/Embedded.antt =====
-- internal/backend/embedded/backend.go: `Add`. The keyring is a parameter.
use omni_sshagent.Base.{Bool, Option, some, if◌then◌else◌}
use omni_sshagent.Base.Text.{Text, codes}
use omni_sshagent.Backend.{Error, plain}

-- `agent.AddedKey`, as far as `Add` reads it; the rest of the key is the keyring's.
pub record AddedKey (Key : Type 0) : Type 0 where
  pub key : Key
  pub comment : Text
  pub lifetime_secs : Option Text
  pub confirm_before_use : Bool

abbrev pub confirm_unsupported : Error
confirm_unsupported = plain (codes "embedded backend does not support confirm-before-use")

module _ {Key Keyring : Type 0}
    (keyring_add : AddedKey Key → Keyring → Keyring × Option Error) where
  unfoldable pub add : AddedKey Key → Keyring → Keyring × Option Error
  add key ring =
      if key.confirm_before_use then (ring, some confirm_unsupported) else keyring_add key ring
