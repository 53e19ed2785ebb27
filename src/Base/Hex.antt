-- ===== src/Base/Hex.antt =====
-- Hexadecimal text as in encoding/hex.
use Prim.Native.Nat.{ℕ, ◌+◌, ◌-◌, ◌*◌, ◌/◌, ◌%◌, ◌<◌}
use mathlib.Core.Path.{◌≡◌, refl}
use mathlib.Core.Bool.{false, ◌&&◌}
use mathlib.Core.List.{List, [], ◌∷◌}
use mathlib.Core.Option.{Option, none, some}
use native.Mathlib.Omega.{arith}
use omni_sshagent.Base.Tests.{leb, ltb, ◌==◌, if◌then◌else◌}
use omni_sshagent.Base.Lists.{All}
use omni_sshagent.Base.Text.{Text, is_space}
use omni_sshagent.Base.Words.{IsSolid, IsOther}

unfoldable pub hex_digit : ℕ → ℕ
hex_digit d = if ltb d 10 then 48 + d else 87 + d

-- `hex.EncodeToString`
unfoldable pub hex_encode : List ℕ → Text
unfolding hex_digit
hex_encode [] = []
hex_encode (b ∷ bs) = hex_digit (b / 16) ∷ hex_digit (b % 16) ∷ hex_encode bs

unfoldable pub hex_value : ℕ → Option ℕ
hex_value c =
    if leb b'0' c && leb c b'9'
    then some (c - 48)
    else if leb b'a' c && leb c b'f'
    then some (c - 87)
    else if leb b'A' c && leb c b'F'
    then some (c - 55)
    else none

hex_byte : Option ℕ → Option ℕ → Option (List ℕ) → Option (List ℕ)
hex_byte (some h) (some l) (some rest) = some ((h * 16 + l) ∷ rest)
hex_byte _ _ _ = none

-- `hex.DecodeString`; an odd length or another character is an error.
unfoldable pub hex_decode : Text → Option (List ℕ)
unfolding hex_value hex_byte
hex_decode [] = some []
hex_decode (c ∷ []) = none
hex_decode (c ∷ d ∷ cs) = hex_byte (hex_value c) (hex_value d) (hex_decode cs)

abbrev pub IsByte : ℕ → Type 0
IsByte b = b < 256

hex_value-hex_digit : (d : ℕ) → d < 16 → hex_value (hex_digit d) ≡ some d
unfolding hex_value hex_digit
hex_value-hex_digit d h = ground arith

-- Decoding gives back the bytes that were encoded.
pub hex_decode-hex_encode : (bs : List ℕ) → All IsByte bs → hex_decode (hex_encode bs) ≡ some bs
unfolding hex_decode hex_encode
hex_decode-hex_encode [] h = refl
hex_decode-hex_encode (b ∷ bs) h =
    rw
      (
        hex_value-hex_digit (b / 16) (omega arith),
        hex_value-hex_digit (b % 16) (omega arith),
        hex_decode-hex_encode bs h.1,
      )
      (ground arith)

abbrev pub IsHexDigit : ℕ → Type 0
IsHexDigit c = (is_space c ≡ false) × ((c == b'-') ≡ false)

hex_digit-IsHexDigit : (d : ℕ) → d < 16 → IsHexDigit (hex_digit d)
unfolding hex_digit is_space
hex_digit-IsHexDigit d h = ground arith

-- The text holds no space and no dash.
pub hex_encode-IsHexDigit :
    (bs : List ℕ) → All IsByte bs → All IsSolid (hex_encode bs) × All (IsOther b'-') (hex_encode bs)
unfolding hex_encode
hex_encode-IsHexDigit [] h = (tt, tt)
hex_encode-IsHexDigit (b ∷ bs) h =
    let high = hex_digit-IsHexDigit (b / 16) (omega arith) in
    let low = hex_digit-IsHexDigit (b % 16) (omega arith) in
    let (solid, other) = hex_encode-IsHexDigit bs h.1 in
    ((high.0, (low.0, solid)), (high.1, (low.1, other)))
