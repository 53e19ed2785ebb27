-- ===== src/Cygwin/Handshake.antt =====
-- internal/interfaces/cygwin/cygwin_windows.go: `handle`, the connection of one client. The client
-- is the bytes that it sends and the number of writes to it that succeed; what the component does
-- is a list of actions.
use omni_sshagent.Base.{
  ℕ, zero, suc, Bool, true, false, not, ◌&&◌, ◌||◌, List, [], ◌∷◌, ◌++◌, Option, none, some, leb,
  length, take, drop, if◌then◌else◌, ◌≡◌, ◌≢◌, refl, arith, length-drop,
}
use omni_sshagent.Base.Endian.{little_endian}
use omni_sshagent.Base.Text.{equal, equal_iff}
use omni_sshagent.Files.{Bytes}
use omni_sshagent.Interfaces.{Served, is_failure}

pub record Client : Type 0 where
  pub input : Bytes
  pub writes : ℕ

pub data Action : Type 0 where
  set_deadline : ℕ → Action
  clear_deadline : Action
  sent : Bytes → Action
  -- `ServeAgent` on what the client has still to send.
  serve : Bytes → Action
  warn : Action
  close : Action

abbrev pub is_served : List Action → Bool
is_served [] = false
is_served (serve rest ∷ actions) = true
is_served (set_deadline n ∷ actions) = is_served actions
is_served (clear_deadline ∷ actions) = is_served actions
is_served (sent b ∷ actions) = is_served actions
is_served (warn ∷ actions) = is_served actions
is_served (close ∷ actions) = is_served actions

-- `io.ReadFull` of `n` bytes: them and what follows, or an error if there are fewer.
unfoldable pub read_full : ℕ → Bytes → Option (Bytes × Bytes)
read_full n input = if leb n (length input) then some (take n input, drop n input) else none

module _ (serve_agent : Bytes → Served) (pid : ℕ) (has_logger : Bool) where
  unfoldable pub serving : Bytes → List Action
  serving rest =
      serve rest ∷ (if is_failure (serve_agent rest) && has_logger then warn ∷ [] else [])

  -- Behind the second write.
  unfoldable pub answer_pid : Bytes → Bytes → ℕ → List Action
  unfolding serving
  answer_pid pid_data rest zero = []
  answer_pid pid_data rest (suc writes) =
      sent (little_endian pid ++ drop 4 pid_data) ∷ clear_deadline ∷ serving rest

  -- Behind the first write.
  unfoldable pub answer_nonce : Bytes → Bytes → ℕ → List Action
  unfolding answer_pid
  answer_nonce nonce input zero = []
  answer_nonce nonce input (suc writes) = sent nonce ∷ elim (read_full 12 input) [
    | none ↦ []
    | some (pid_data, rest) ↦ answer_pid pid_data rest writes
  ]

  unfoldable pub check_nonce : Bytes → ℕ → Option (Bytes × Bytes) → List Action
  unfolding answer_nonce
  check_nonce nonce writes none = []
  check_nonce nonce writes (some (got, rest)) =
      if not (equal got nonce) then [] else answer_nonce nonce rest writes

  -- The deferred `Close` comes last on every path.
  unfoldable pub handle : ℕ → Bytes → Client → List Action
  unfolding check_nonce
  handle timeout nonce client =
      set_deadline timeout
      ∷ (check_nonce nonce client.writes (read_full 16 client.input) ++ close ∷ [])

  -- What a client has to send and to take: the 16 bytes of the nonce, 12 more bytes, two answers.
  abbrev pub admits : Bytes → Client → Bool
  admits nonce client =
      leb 28 (length client.input) && equal (take 16 client.input) nonce && leb 2 client.writes

  is_served-append : (l m : List Action) → is_served (l ++ m) ≡ (is_served l || is_served m)
  is_served-append [] m = refl
  is_served-append (set_deadline n ∷ l) m = is_served-append l m
  is_served-append (clear_deadline ∷ l) m = is_served-append l m
  is_served-append (sent b ∷ l) m = is_served-append l m
  is_served-append (serve r ∷ l) m = refl
  is_served-append (warn ∷ l) m = is_served-append l m
  is_served-append (close ∷ l) m = is_served-append l m

  is_served-answer_pid :
      (data' rest : Bytes) (writes : ℕ) → is_served (answer_pid data' rest writes) ≡ leb 1 writes
  unfolding answer_pid
  is_served-answer_pid data' rest zero = refl
  is_served-answer_pid data' rest (suc writes) = ground arith

  is_served-answer_nonce :
      (nonce rest : Bytes) (writes : ℕ)
      → is_served (answer_nonce nonce rest writes) ≡ (leb 12 (length rest) && leb 2 writes)
  unfolding answer_nonce read_full answer_pid
  is_served-answer_nonce nonce rest zero = ground arith
  is_served-answer_nonce nonce rest (suc writes) =
      ground (arith, is_served-answer_pid (take 12 rest) (drop 12 rest) writes)

  -- A client reaches the agent exactly if it has sent the nonce of this run and 12 more bytes, and
  -- has taken both answers.
  pub handle-admits :
      (timeout : ℕ) (nonce : Bytes) (client : Client)
      → is_served (handle timeout nonce client) ≡ admits nonce client
  unfolding handle check_nonce read_full
  handle-admits timeout nonce client = ground (
    arith,
    is_served-append (check_nonce nonce client.writes (read_full 16 client.input)) (close ∷ []),
    is_served-answer_nonce nonce (drop 16 client.input) client.writes,
    length-drop 16 client.input,
  )

  -- A client that does not send the nonce gets no byte, is not served, and its connection is closed.
  pub handle_wrong_nonce :
      (timeout : ℕ) (nonce : Bytes) (client : Client)
      → take 16 client.input ≢ nonce
      → handle timeout nonce client ≡ set_deadline timeout ∷ close ∷ []
  unfolding handle check_nonce read_full
  handle_wrong_nonce timeout nonce client h = ground (arith, equal_iff (take 16 client.input) nonce)

  -- An admitted client gets the nonce, then this process's number in little endian in front of
  -- its own 8 bytes behind the number that it sent, all before the deadline is lifted and the
  -- agent serves what follows; the connection is closed last.
  pub handle_admitted :
      (timeout : ℕ) (nonce : Bytes) (client : Client)
      → admits nonce client ≡ true
      → handle timeout nonce client
        ≡ set_deadline timeout
          ∷ sent nonce
          ∷ sent (little_endian pid ++ drop 4 (take 12 (drop 16 client.input)))
          ∷ clear_deadline
          ∷ (serving (drop 12 (drop 16 client.input)) ++ close ∷ [])
  unfolding handle check_nonce answer_nonce answer_pid read_full
  handle_admitted timeout nonce client h = go client.writes refl
    where
      go :
          (writes : ℕ)
          → client.writes ≡ writes
          → handle timeout nonce client
            ≡ set_deadline timeout
              ∷ sent nonce
              ∷ sent (little_endian pid ++ drop 4 (take 12 (drop 16 client.input)))
              ∷ clear_deadline
              ∷ (serving (drop 12 (drop 16 client.input)) ++ close ∷ [])
      go zero e = absurd (ground arith)
      go (suc zero) e = absurd (ground arith)
      go (suc (suc writes)) e = ground (arith, length-drop 16 client.input)
