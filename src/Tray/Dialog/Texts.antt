-- ===== src/Tray/Dialog/Texts.antt =====
-- The buffers of internal/tray/dialog_windows.go and `copyUTF16` of tray_windows.go as Windows reads
-- them.
use mathlib.Core.List.{append_assoc, append-nil}
use omni_sshagent.Base.{
  ℕ, zero, suc, ◌≤◌, ◌<◌, false, List, [], ◌∷◌, ◌++◌, map, some, if◌then◌else◌, ltb, ◌==◌, ◌≡◌,
  refl, ap, ◌∙◌, arith, length, take, drop, length-append, length-take, length-drop, All,
}
use omni_sshagent.Base.Text.{Text, contains, is_empty}
use omni_sshagent.Tray.Dialog.{
  utf16_from_string, end_buffer, copy_utf16, utf16_filter, until_zero, read_strings, filter_strings,
  widest, horizontal_extent,
}

abbrev pub IsUnit : ℕ → Type 0
IsUnit u = (u == 0) ≡ false

read_strings-append :
    (word us rest : List ℕ)
    → All IsUnit us
    → read_strings word (us ++ rest) ≡ read_strings (word ++ us) rest
unfolding read_strings
read_strings-append word [] rest h = rw append-nil
read_strings-append word (u ∷ us) rest h =
    rw (h.0) (read_strings-append (word ++ u ∷ []) us rest h.1 ∙ rw append_assoc)

-- A part of a filter: it has a text, and no NUL.
abbrev pub IsPart : (Text → List ℕ) → Text → Type 0
IsPart units part =
    (contains part 0 ≡ false) × All IsUnit (units part) × (is_empty (units part) ≡ false)

pub from_string :
    (units : Text → List ℕ) (text : Text)
    → contains text 0 ≡ false
    → utf16_from_string units text ≡ some (units text ++ 0 ∷ [])
unfolding utf16_from_string
from_string units text h = rw h

-- Windows reads the parts of a filter just as they were given, if each has a text and no NUL.
pub filter_strings-utf16_filter :
    (units : Text → List ℕ) (parts : List Text)
    → All (IsPart units) parts
    → filter_strings (utf16_filter units parts) ≡ map units parts
unfolding filter_strings utf16_filter read_strings
filter_strings-utf16_filter units [] h = refl
filter_strings-utf16_filter units (part ∷ parts) (p, h) =
    rw
      (
        from_string units part p.0,
        utf16_filter,
        append_assoc (units part) (0 ∷ []) (utf16_filter units parts),
      )
      (read_strings-append [] (units part) (0 ∷ utf16_filter units parts) p.1
        ∙ rw (p.2) (ap (λ l. units part ∷ l) (filter_strings-utf16_filter units parts h)))

until_zero-append :
    (us rest : List ℕ) → All IsUnit us → until_zero (us ++ rest) ≡ us ++ until_zero rest
unfolding until_zero
until_zero-append [] rest h = refl
until_zero-append (u ∷ us) rest h = rw (h.0) (ap (λ l. u ∷ l) (until_zero-append us rest h.1))

end_buffer-cons : (u : ℕ) (us : List ℕ) → 0 < length us → end_buffer (u ∷ us) ≡ u ∷ end_buffer us
unfolding end_buffer
end_buffer-cons u [] h = absurd (omega arith)
end_buffer-cons u (v ∷ us) h = refl

drop-nil : (n : ℕ) → drop {A = ℕ} n [] ≡ []
drop-nil zero = refl
drop-nil (suc n) = refl

-- The buffer that `copy` leaves.
copied : List ℕ → List ℕ → List ℕ
copied dst encoded = take (length dst) encoded ++ drop (length encoded) dst

length-copied : (dst encoded : List ℕ) → length (copied dst encoded) ≡ length dst
unfolding copied
length-copied dst encoded = omega (
  arith,
  length-append (take (length dst) encoded) (drop (length encoded) dst),
  length-take (length dst) encoded,
  length-drop (length encoded) dst,
)

-- Cut to a buffer and ended by a 0, the units and a 0 read as far as they fit.
until_zero-end_buffer :
    (x : ℕ) (dst us : List ℕ)
    → All IsUnit us
    → until_zero (end_buffer (copied (x ∷ dst) (us ++ 0 ∷ []))) ≡ take (length dst) us
unfolding copied until_zero
until_zero-end_buffer x [] [] h = unfold end_buffer in refl
until_zero-end_buffer x [] (u ∷ us) h =
    rw (drop-nil (length (us ++ 0 ∷ []))) (unfold end_buffer in refl)
until_zero-end_buffer x (y ∷ dst) [] h = unfold end_buffer in refl
until_zero-end_buffer x (y ∷ dst) (u ∷ us) h =
    let rest : List ℕ = copied (y ∷ dst) (us ++ 0 ∷ []) in
    let long : 0 < length rest = omega (arith, length-copied (y ∷ dst) (us ++ 0 ∷ [])) in
    ap until_zero (end_buffer-cons u rest long)
    ∙ rw (h.0) (ap (λ l. u ∷ l) (until_zero-end_buffer y dst us h.1))

-- A buffer behind `copyUTF16` of a text with no NUL reads as the text, cut to the units that leave
-- room for the 0, whatever the buffer has held.
pub until_zero-copy_utf16 :
    (units : Text → List ℕ) (x : ℕ) (dst : List ℕ) (text : Text)
    → contains text 0 ≡ false
    → All IsUnit (units text)
    → until_zero (copy_utf16 units (x ∷ dst) text) ≡ take (length dst) (units text)
unfolding copy_utf16
until_zero-copy_utf16 units x dst text c h =
    rw (from_string units text c, copy_utf16)
      (unfold copied in until_zero-end_buffer x dst (units text) h)

All-le : (b c : ℕ) (vs : List ℕ) → c ≤ b → All (λ v. v ≤ c) vs → All (λ v. v ≤ b) vs
All-le b c [] l h = tt
All-le b c (v ∷ vs) l h = (omega arith, All-le b c vs l h.1)

le_widest : (b w : ℕ) (widths : List ℕ) → b ≡ widest w widths → (w ≤ b) × All (λ v. v ≤ b) widths
unfolding widest
le_widest b w [] e = (omega arith, tt)
le_widest b w (v ∷ widths) e =
    let (a, rest) = le_widest b (if ltb w v then v else w) widths e in
    (ground (arith, a), (ground (arith, a), rest))

All-map :
    (measure : Text → ℕ) (b : ℕ) (rows : List Text)
    → All (λ v. v ≤ b) (map measure rows)
    → All (λ row. measure row ≤ b) rows
All-map measure b [] h = tt
All-map measure b (row ∷ rows) h = (h.0, All-map measure b rows h.1)

-- The extent has room for every row.
pub horizontal_extent_fits :
    (measure : Text → ℕ) (rows : List Text)
    → All (λ row. measure row ≤ horizontal_extent measure rows) rows
horizontal_extent_fits measure rows = All-map measure (horizontal_extent measure rows) rows (
    All-le (horizontal_extent measure rows) (widest 0 (map measure rows)) (map measure rows) grows
      (le_widest (widest 0 (map measure rows)) 0 (map measure rows) refl).1)
  where
    grows : widest 0 (map measure rows) ≤ horizontal_extent measure rows
    grows = unfold horizontal_extent in ground arith
