-- ===== src/Base/Endian.antt =====
-- Words of 32 bits as four bytes, as encoding/binary writes and reads them, and `io.ReadFull`.
use Prim.Native.Nat.{ℕ, ◌+◌, ◌*◌, ◌/◌, ◌%◌, ◌^◌, ◌<◌}
use mathlib.Core.Path.{◌≡◌, refl}
use mathlib.Core.List.{List, [], ◌∷◌, ◌++◌}
use native.Mathlib.Omega.{arith}
use omni_sshagent.Base.Tests.{leb, ◌==◌, if◌then◌else◌}
use omni_sshagent.Base.Lists.{length, take, drop, length-append}

-- `binary.LittleEndian.PutUint32` of `uint32(n)`
unfoldable pub little_endian : ℕ → List ℕ
little_endian n =
    let m = n % 2 ^ 32 in m % 256 ∷ m / 256 % 256 ∷ m / 65536 % 256 ∷ m / 16777216 % 256 ∷ []

-- `binary.BigEndian.PutUint32` of `uint32(n)`
unfoldable pub put_big_endian : ℕ → List ℕ
put_big_endian n =
    let m = n % 2 ^ 32 in m / 16777216 % 256 ∷ m / 65536 % 256 ∷ m / 256 % 256 ∷ m % 256 ∷ []

-- `binary.LittleEndian.Uint32` and `binary.BigEndian.Uint32` of four bytes.
unfoldable pub little_word : List ℕ → ℕ
little_word (a ∷ b ∷ c ∷ d ∷ rest) = a + b * 256 + c * 65536 + d * 16777216
little_word _ = 0

unfoldable pub big_word : List ℕ → ℕ
big_word (a ∷ b ∷ c ∷ d ∷ rest) = a * 16777216 + b * 65536 + c * 256 + d
big_word _ = 0

abbrev pub IsWord : ℕ → Type 0
IsWord n = n < 4294967296

pub little_word-little_endian :
    (n : ℕ) (rest : List ℕ) → IsWord n → little_word (little_endian n ++ rest) ≡ n
unfolding little_word little_endian
little_word-little_endian n rest h = omega arith

pub big_word-put_big_endian :
    (n : ℕ) (rest : List ℕ) → IsWord n → big_word (put_big_endian n ++ rest) ≡ n
unfolding big_word put_big_endian
big_word-put_big_endian n rest h = omega arith

-- What `io.ReadFull` of `n` bytes finds: them and what follows; no byte at all, `io.EOF`; or fewer,
-- `io.ErrUnexpectedEOF`.
pub data Full : Type 0 where
  full : List ℕ → List ℕ → Full
  end_of_input cut_short : Full

unfoldable pub read_exactly : ℕ → List ℕ → Full
read_exactly n input =
    if leb n (length input)
    then full (take n input) (drop n input)
    else if length input == 0
    then end_of_input
    else cut_short

module _ {ℓ} {A : Type ℓ} where
  pub take-append : (xs ys : List A) → take (length xs) (xs ++ ys) ≡ xs
  take-append [] ys = refl
  take-append (x ∷ xs) ys = rw (take-append xs ys)

  pub drop-append : (xs ys : List A) → drop (length xs) (xs ++ ys) ≡ ys
  drop-append [] ys = refl
  drop-append (x ∷ xs) ys = drop-append xs ys

pub read_exactly-append :
    (n : ℕ) (xs ys : List ℕ) → length xs ≡ n → read_exactly n (xs ++ ys) ≡ full xs ys
unfolding read_exactly
read_exactly-append n xs ys h =
    rw (← h) (ground (arith, length-append xs ys, take-append xs ys, drop-append xs ys))
