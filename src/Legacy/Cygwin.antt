-- ===== src/Legacy/Cygwin.antt =====
-- old/pkg/cygwinsocket/cygwinsocket.go: `nonce2s` and `handle`, beside their successors in
-- internal/interfaces/cygwin. What a client sends arrives in chunks, and `conn.Read` gives one chunk
-- at most.
pub mod Same
pub mod Made
use omni_sshagent.Base.{
  ℕ, zero, suc, ◌-◌, Bool, true, false, not, ◌&&◌, List, [], ◌∷◌, ◌++◌, Option, none, some, leb,
  length, take, drop, if◌then◌else◌, ◌≡◌, ◌≢◌, refl, sym, ap, ◌∙◌, arith, length-append,
}
use omni_sshagent.Base.Text.{Text, equal, equal_refl}
use omni_sshagent.Base.Words.{join}
use omni_sshagent.Base.Hex.{hex_encode}
use omni_sshagent.Base.Endian.{little_endian, take-append, drop-append}
use omni_sshagent.Files.{Bytes}
use omni_sshagent.Interfaces.{Served, is_failure}
use omni_sshagent.Cygwin.{nonce_text, nonce_word}
use omni_sshagent.Cygwin.Handshake.{
  Client, Action, set_deadline, clear_deadline, sent, serve, warn, close, handle, serving,
  read_full,
}

-- The loop of `nonce2s`; an index out of range panics.
nonce_words : Bytes → Option (List Text)
nonce_words [] = some []
nonce_words (a ∷ b ∷ c ∷ d ∷ rest) = elim (nonce_words rest) [
  | none ↦ none
  | some words ↦ some (hex_encode (d ∷ c ∷ b ∷ a ∷ []) ∷ words)
]
nonce_words _ = none

unfoldable pub nonce2s : Bytes → Option Text
unfolding nonce_words
nonce2s nonce = elim (nonce_words nonce) [ none ↦ none | some words ↦ some (join b'-' words) ]

-- `conn.Read` with a buffer of `n` bytes; nothing at the end.
push_back : Bytes → List Bytes → List Bytes
push_back [] chunks = chunks
push_back (b ∷ rest) chunks = (b ∷ rest) ∷ chunks

unfoldable pub read : ℕ → List Bytes → Option (Bytes × List Bytes)
unfolding push_back
read n [] = none
read n (chunk ∷ chunks) = some (take n chunk, push_back (drop n chunk) chunks)

zeros : ℕ → Bytes
zeros zero = []
zeros (suc n) = 0 ∷ zeros n

-- A buffer of `n` bytes that such a read has filled from its start.
unfoldable pub buffer : ℕ → Bytes → Bytes
unfolding zeros
buffer n got = got ++ zeros (n - length got)

unfoldable pub all_of : List Bytes → Bytes
all_of [] = []
all_of (chunk ∷ chunks) = chunk ++ all_of chunks

module _ (pid : ℕ) where
  unfoldable pub former_answer_pid : Option (Bytes × List Bytes) → ℕ → List Action
  unfolding buffer all_of
  former_answer_pid none writes = []
  former_answer_pid (some (got, rest)) zero = []
  former_answer_pid (some (got, rest)) (suc writes) =
      sent (little_endian pid ++ drop 4 (buffer 12 got)) ∷ serve (all_of rest) ∷ []

  unfoldable pub former_answer_nonce : Bytes → List Bytes → ℕ → List Action
  unfolding former_answer_pid read
  former_answer_nonce nonce rest zero = []
  former_answer_nonce nonce rest (suc writes) = sent nonce ∷ former_answer_pid (read 12 rest) writes

  unfoldable pub former_check_nonce : Bytes → ℕ → Option (Bytes × List Bytes) → List Action
  unfolding former_answer_nonce
  former_check_nonce nonce writes none = []
  former_check_nonce nonce writes (some (got, rest)) =
      if not (equal nonce (buffer 16 got)) then [] else former_answer_nonce nonce rest writes

  -- The former `handle`: `writes` is how many writes succeed, and an error is only logged. The read
  -- deadline is never lifted, so that only the first `in_time` chunks can be read at all.
  unfoldable pub former_handle : ℕ → ℕ → Bytes → List Bytes → ℕ → List Action
  unfolding former_check_nonce read
  former_handle timeout in_time nonce chunks writes =
      set_deadline timeout
      ∷ (former_check_nonce nonce writes (read 16 (take in_time chunks)) ++ close ∷ [])

-- What the client sees of the actions.
unfoldable pub visible : List Action → List Action
visible [] = []
visible (set_deadline n ∷ actions) = visible actions
visible (clear_deadline ∷ actions) = visible actions
visible (sent b ∷ actions) = sent b ∷ visible actions
visible (serve b ∷ actions) = serve b ∷ visible actions
visible (warn ∷ actions) = visible actions
visible (close ∷ actions) = close ∷ visible actions
