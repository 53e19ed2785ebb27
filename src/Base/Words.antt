-- ===== src/Base/Words.antt =====
-- `strings.Fields`, `strings.Split` at one character, and `strings.Join`.
use Prim.Native.Nat.{ℕ}
use mathlib.Core.Path.{◌≡◌, sym, ap, ◌∙◌}
use mathlib.Core.Bool.{true, false}
use mathlib.Core.List.{List, [], ◌∷◌, ◌++◌, append_assoc, append-nil}
use omni_sshagent.Base.Tests.{◌==◌, if◌then◌else◌}
use omni_sshagent.Base.Lists.{All}
use omni_sshagent.Base.Text.{Text, is_space}

flush : Text → List Text
flush [] = []
flush word = word ∷ []

-- `word` is the field that is being read.
fields_from : Text → Text → List Text
unfolding flush
fields_from word [] = flush word
fields_from word (c ∷ cs) =
    let here = flush word ++ fields_from [] cs in
    let more = fields_from (word ++ c ∷ []) cs in if is_space c then here else more

unfoldable pub fields : Text → List Text
unfolding fields_from
fields s = fields_from [] s

split_from : ℕ → Text → Text → List Text
split_from sep word [] = word ∷ []
split_from sep word (c ∷ cs) =
    let here = word ∷ split_from sep [] cs in
    let more = split_from sep (word ++ c ∷ []) cs in if c == sep then here else more

unfoldable pub split : ℕ → Text → List Text
unfolding split_from
split sep s = split_from sep [] s

unfoldable pub join : ℕ → List Text → Text
join sep [] = []
join sep (w ∷ []) = w
join sep (w ∷ v ∷ ws) = w ++ sep ∷ join sep (v ∷ ws)

abbrev pub IsSolid : ℕ → Type 0
IsSolid c = is_space c ≡ false

abbrev pub IsOther : ℕ → ℕ → Type 0
IsOther sep c = (c == sep) ≡ false

fields_from-append :
    (word solid rest : Text)
    → All IsSolid solid
    → fields_from word (solid ++ rest) ≡ fields_from (word ++ solid) rest
unfolding fields_from
fields_from-append word [] rest h = rw append-nil
fields_from-append word (c ∷ solid) rest h =
    rw h.0 (fields_from-append (word ++ c ∷ []) solid rest h.1 ∙ rw append_assoc)

-- A field up to the next space, and the fields behind it.
pub fields_space :
    (c : ℕ) (solid rest : Text)
    → All IsSolid (c ∷ solid)
    → fields (c ∷ (solid ++ 32 ∷ rest)) ≡ (c ∷ solid) ∷ fields rest
unfolding fields is_space
fields_space c solid rest h = fields_from-append [] (c ∷ solid) (32 ∷ rest) h

pub fields_last :
    (c : ℕ) (solid : Text) → All IsSolid (c ∷ solid) → fields (c ∷ solid) ≡ (c ∷ solid) ∷ []
unfolding fields
fields_last c solid h =
    ap fields (sym (append-nil (c ∷ solid))) ∙ fields_from-append [] (c ∷ solid) [] h

split_from-append :
    (sep : ℕ) (word other rest : Text)
    → All (IsOther sep) other
    → split_from sep word (other ++ rest) ≡ split_from sep (word ++ other) rest
unfolding split_from
split_from-append sep word [] rest h = rw append-nil
split_from-append sep word (c ∷ other) rest h =
    rw h.0 (split_from-append sep (word ++ c ∷ []) other rest h.1 ∙ rw append_assoc)

pub split_sep :
    (sep : ℕ) (other rest : Text)
    → All (IsOther sep) other
    → (sep == sep) ≡ true
    → split sep (other ++ sep ∷ rest) ≡ other ∷ split sep rest
unfolding split
split_sep sep other rest h k = split_from-append sep [] other (sep ∷ rest) h ∙ rw k

pub split_last : (sep : ℕ) (other : Text) → All (IsOther sep) other → split sep other ≡ other ∷ []
unfolding split
split_last sep other h =
    ap (split sep) (sym (append-nil other)) ∙ split_from-append sep [] other [] h
