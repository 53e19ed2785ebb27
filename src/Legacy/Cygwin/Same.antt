-- ===== src/Legacy/Cygwin/Same.antt =====
-- old/pkg/cygwinsocket/cygwinsocket.go and internal/interfaces/cygwin: where the former code and its
-- successor do the same.
use omni_sshagent.Base.{
  ℕ, zero, suc, not, List, [], ◌∷◌, ◌++◌, some, length, drop, if◌then◌else◌, ◌≡◌,
}
use omni_sshagent.Base.Text.{Text, equal}
use omni_sshagent.Base.Endian.{little_endian}
use omni_sshagent.Files.{Bytes}
use omni_sshagent.Cygwin.{nonce_text, nonce_word}
use omni_sshagent.Cygwin.Nonce.{first_four, nil_of_length}
use omni_sshagent.Cygwin.Handshake.{Action, sent, serve}
use omni_sshagent.Legacy.Cygwin.{nonce2s, nonce_words}

-- On the 16 bytes of a UUID, `nonce2s` and `nonceText` write the same text.
pub nonce2s-nonce_text :
    (nonce : Bytes) → length nonce ≡ 16 → nonce2s nonce ≡ some (nonce_text nonce)
unfolding nonce2s nonce_words nonce_text nonce_word
nonce2s-nonce_text nonce h =
    let (a0, b0, c0, d0, r0, e0, l0) = first_four nonce 12 h in
    let (a1, b1, c1, d1, r1, e1, l1) = first_four r0 8 l0 in
    let (a2, b2, c2, d2, r2, e2, l2) = first_four r1 4 l1 in
    let (a3, b3, c3, d3, r3, e3, l3) = first_four r2 0 l2 in
    rw (e0, e1, e2, e3, nil_of_length r3 l3)

-- What a client sees whose bytes are cut as expected.
abbrev answers : ℕ → Bytes → Bytes → Bytes → ℕ → List Action
answers pid nonce pid_data rest zero = []
answers pid nonce pid_data rest (suc zero) = sent nonce ∷ []
answers pid nonce pid_data rest (suc (suc writes)) =
    sent nonce ∷ sent (little_endian pid ++ drop 4 pid_data) ∷ serve rest ∷ []

abbrev seen : ℕ → Bytes → Bytes → Bytes → Bytes → ℕ → List Action
seen pid nonce got pid_data rest writes =
    if not (equal nonce got) then [] else answers pid nonce pid_data rest writes
