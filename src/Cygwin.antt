-- ===== src/Cygwin.antt =====
-- internal/interfaces/cygwin/cygwin_windows.go: the text of the socket file, its nonce and the
-- owner marker. SocketFiles has the two files of a component, Handshake a client's connection.
pub mod Nonce
pub mod Atomic
pub mod SocketFiles
pub mod Handshake
pub mod Start
use omni_sshagent.Base.{
  ℕ, ◌+◌, Bool, true, false, not, ◌&&◌, ◌||◌, List, [], ◌∷◌, ◌++◌, Option, none, some, ◌==◌, get_or,
  length, if◌then◌else◌, ℤ, is_some, is_none,
}
use omni_sshagent.Base.Text.{Text, codes, equal, has_prefix}
use omni_sshagent.Base.Words.{fields, split, join}
use omni_sshagent.Base.Hex.{hex_encode, hex_decode}
use omni_sshagent.Base.Decimal.{decimal, atoi}
use omni_sshagent.Files.{Bytes}

-- Four bytes of the nonce from the last to the first, for `i`, `i + 4`, and so on.
unfoldable pub nonce_word : Bytes → ℕ → Text
nonce_word nonce i = hex_encode (
    get_or nonce (i + 3) 0
    ∷ get_or nonce (i + 2) 0
    ∷ get_or nonce (i + 1) 0
    ∷ get_or nonce i 0
    ∷ [])

-- `nonceText` of a nonce, which has 16 bytes; `i` runs through 0, 4, 8 and 12.
unfoldable pub nonce_text : Bytes → Text
unfolding nonce_word
nonce_text nonce =
    join b'-'
      (nonce_word nonce 0 ∷ nonce_word nonce 4 ∷ nonce_word nonce 8 ∷ nonce_word nonce 12 ∷ [])

-- The content that `writeFiles` gives the socket file.
unfoldable pub socket_text : ℕ → Bytes → Text
socket_text port nonce = codes "!<socket >" ++ (decimal port ++ (codes " s " ++ nonce_text nonce))

-- `strings.TrimPrefix s ">"`
trim_mark : Text → Text
trim_mark [] = []
trim_mark (c ∷ cs) = if c == b'>' then cs else c ∷ cs

-- The loop over the words; four bytes each, turned round.
reverse_word : Option Bytes → Option Bytes → Option Bytes
reverse_word (some (a ∷ b ∷ c ∷ d ∷ [])) (some out) = some (d ∷ c ∷ b ∷ a ∷ out)
reverse_word _ _ = none

parse_words : List Text → Option Bytes
unfolding reverse_word
parse_words [] = some []
parse_words (w ∷ ws) = reverse_word (hex_decode w) (parse_words ws)

-- `len(fields) != 4` and `len(words) != 4` are the last clauses.
parse_nonce : List Text → Option Bytes
unfolding parse_words
parse_nonce (a ∷ b ∷ c ∷ d ∷ []) = parse_words (a ∷ b ∷ c ∷ d ∷ [])
parse_nonce _ = none

parse_fields : List Text → Option Bytes
unfolding trim_mark parse_nonce
parse_fields (magic ∷ port ∷ kind ∷ nonce ∷ []) =
    if not (equal magic (codes "!<socket")) || not (equal kind (codes "s"))
    then none
    else if is_none (atoi (trim_mark port))
    then none
    else parse_nonce (split b'-' nonce)
parse_fields _ = none

unfoldable pub parse_socket_nonce : Text → Option Bytes
unfolding parse_fields
parse_socket_nonce value = parse_fields (fields value)
