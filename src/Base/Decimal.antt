-- ===== src/Base/Decimal.antt =====
-- `%d` and `strconv.Atoi`.
use Prim.Native.Nat.{ℕ, zero, suc, ◌+◌, ◌-◌, ◌*◌, ◌/◌, ◌%◌, ◌≤◌, ◌<◌}
use mathlib.Core.Path.{◌≡◌, refl, ◌∙◌}
use mathlib.Core.Bool.{Bool, true, false, ◌&&◌}
use mathlib.Core.List.{List, [], ◌∷◌, ◌++◌, append_assoc, append-nil}
use mathlib.Core.Logic.{inl, inr}
use mathlib.Core.Option.{Option, none, some}
use native.Mathlib.Omega.{arith}
use omni_sshagent.Base.Tests.{leb, ltb, ◌==◌, if◌then◌else◌, Bool-cases}
use omni_sshagent.Base.Lists.{All}
use omni_sshagent.Base.Int.{ℤ, pos, negsuc}
use omni_sshagent.Base.Text.{Text, is_space}
use omni_sshagent.Base.Words.{IsSolid}

pub All-append {ℓ κ} :
    {A : Type ℓ} (P : A → Type κ) (xs ys : List A) → All P xs → All P ys → All P (xs ++ ys)
All-append P [] ys h k = k
All-append P (x ∷ xs) ys h k = (h.0, All-append P xs ys h.1 k)

decimal_from : ℕ → ℕ → Text
decimal_from zero n = []
decimal_from (suc fuel) n =
    let rest = decimal_from fuel (n / 10) in
    if ltb n 10 then (48 + n) ∷ [] else rest ++ (48 + n % 10) ∷ []

-- `%d` of a number that is not negative; it has at most as many digits as its value and one more.
unfoldable pub decimal : ℕ → Text
unfolding decimal_from
decimal n = decimal_from (suc n) n

digits_value : ℕ → Text → Option ℕ
digits_value acc [] = some acc
digits_value acc (c ∷ cs) =
    let rest = digits_value (acc * 10 + (c - 48)) cs in
    if leb b'0' c && leb c b'9' then rest else none

signed : Bool → Option ℕ → Option ℤ
signed negative none = none
signed false (some n) = if ltb n 9223372036854775808 then some (pos n) else none
signed true (some zero) = some (pos 0)
signed true (some (suc n)) = if ltb n 9223372036854775808 then some (negsuc n) else none

-- The digits behind the sign; there is at least one.
magnitude : Text → Option ℕ
unfolding digits_value
magnitude [] = none
magnitude (c ∷ cs) = digits_value 0 (c ∷ cs)

-- `strconv.Atoi` of a 64-bit `int`.
unfoldable pub atoi : Text → Option ℤ
unfolding magnitude signed
atoi [] = none
atoi (c ∷ cs) =
    if c == b'-'
    then signed true (magnitude cs)
    else if c == b'+'
    then signed false (magnitude cs)
    else signed false (magnitude (c ∷ cs))

digits_value-decimal_from :
    (fuel n : ℕ) (rest : Text)
    → n < fuel
    → digits_value 0 (decimal_from fuel n ++ rest) ≡ digits_value n rest
unfolding decimal_from digits_value
digits_value-decimal_from zero n rest h = absurd (omega arith)
digits_value-decimal_from (suc fuel) n rest h = elim (Bool-cases (ltb n 10)) [
  | inl small ↦ rw small (ground arith)
  | inr large ↦ rw large (
      rw (append_assoc (decimal_from fuel (n / 10)) ((48 + n % 10) ∷ []) rest) (
        digits_value-decimal_from fuel (n / 10) ((48 + n % 10) ∷ rest) (ground arith)
        ∙ ground arith))
]

abbrev IsDigit : ℕ → Type 0
IsDigit c = (48 ≤ c) × (c < 58)

decimal_from-IsDigit : (fuel n : ℕ) → All IsDigit (decimal_from fuel n)
unfolding decimal_from
decimal_from-IsDigit zero n = tt
decimal_from-IsDigit (suc fuel) n = elim (Bool-cases (ltb n 10)) [
  | inl small ↦ rw small (ground arith)
  | inr large ↦ rw large (
      All-append IsDigit (decimal_from fuel (n / 10)) ((48 + n % 10) ∷ [])
        (decimal_from-IsDigit fuel (n / 10)) (omega arith))
]

IsDigit-IsSolid : (s : Text) → All IsDigit s → All IsSolid s
unfolding is_space
IsDigit-IsSolid [] h = tt
IsDigit-IsSolid (c ∷ s) h = (ground arith, IsDigit-IsSolid s h.1)

pub decimal-IsSolid : (n : ℕ) → All IsSolid (decimal n)
unfolding decimal
decimal-IsSolid n = IsDigit-IsSolid (decimal_from (suc n) n) (decimal_from-IsDigit (suc n) n)

atoi-digits :
    (s : Text) (n : ℕ)
    → All IsDigit s
    → n < 9223372036854775808
    → magnitude s ≡ some n
    → atoi s ≡ some (pos n)
unfolding atoi
atoi-digits [] n d h m = cc
atoi-digits (c ∷ s) n d h m = ground arith

magnitude-digits_value :
    (s : Text) {n : ℕ} → digits_value 0 s ≡ some (suc n) → magnitude s ≡ some (suc n)
unfolding magnitude
magnitude-digits_value [] h = ground arith
magnitude-digits_value (c ∷ s) h = h

-- A number of 63 bits that is printed is read back.
pub atoi-decimal : (n : ℕ) → n < 9223372036854775808 → atoi (decimal n) ≡ some (pos n)
unfolding digits_value
atoi-decimal zero h = unfold atoi decimal in refl
atoi-decimal (suc n) h =
    unfold decimal in
    atoi-digits _ (suc n) (decimal_from-IsDigit (suc (suc n)) (suc n)) h (
      magnitude-digits_value _
        (rw append-nil at (digits_value-decimal_from (suc (suc n)) (suc n) [] (omega arith))))
