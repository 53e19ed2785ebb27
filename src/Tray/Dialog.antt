-- ===== src/Tray/Dialog.antt =====
-- internal/tray/dialog_windows.go and `copyUTF16` of tray_windows.go: the texts that are handed to
-- Windows, and the width of a list box. `units` stands for the code units that package utf16 gives
-- for a text; a text with a NUL has none.
pub mod Texts
pub mod Windows
use omni_sshagent.Base.{
  ℕ, zero, suc, ◌+◌, ◌-◌, ◌%◌, ◌^◌, ◌*◌, ◌/◌, Bool, true, false, not, ◌||◌, List, [], ◌∷◌, ◌++◌,
  map, Option, none, some, if◌then◌else◌, ltb, ◌==◌, length, take, drop,
}
use omni_sshagent.Base.Text.{Text, contains, is_empty}

-- `dst[len(dst)-1] = 0`; Go panics where the buffer is empty.
unfoldable pub end_buffer : List ℕ → List ℕ
end_buffer [] = []
end_buffer (u ∷ []) = 0 ∷ []
end_buffer (u ∷ v ∷ us) = u ∷ end_buffer (v ∷ us)

module _ (units : Text → List ℕ) where
  -- `windows.UTF16FromString`
  unfoldable pub utf16_from_string : Text → Option (List ℕ)
  utf16_from_string text = if contains text 0 then none else some (units text ++ 0 ∷ [])

  -- `copyUTF16`: a text with a NUL leaves the buffer as it is.
  unfoldable pub copy_utf16 : List ℕ → Text → List ℕ
  unfolding utf16_from_string end_buffer
  copy_utf16 dst text = elim (utf16_from_string text) [
    | none ↦ dst
    | some encoded ↦ end_buffer (take (length dst) encoded ++ drop (length encoded) dst)
  ]

  -- `utf16Filter`: a part with a NUL is left out.
  unfoldable pub utf16_filter : List Text → List ℕ
  unfolding utf16_from_string
  utf16_filter [] = 0 ∷ []
  utf16_filter (part ∷ parts) =
      let rest = utf16_filter parts in
      elim (utf16_from_string part) [ none ↦ rest | some encoded ↦ encoded ++ rest ]

-- What Windows reads of a buffer: up to the first 0.
unfoldable pub until_zero : List ℕ → List ℕ
until_zero [] = []
until_zero (u ∷ us) = if u == 0 then [] else u ∷ until_zero us

-- What Windows reads of a filter: strings with a 0 behind each, up to an empty one.
read_strings : List ℕ → List ℕ → List (List ℕ)
read_strings word [] = []
read_strings word (u ∷ us) =
    let here = (if is_empty word then [] else word ∷ read_strings [] us) in
    let more = read_strings (word ++ u ∷ []) us in if u == 0 then here else more

unfoldable pub filter_strings : List ℕ → List (List ℕ)
unfolding read_strings
filter_strings us = read_strings [] us

-- `metrics.s` on `int32`, whose negative numbers stand for their 32 bits: the product wraps, and the
-- division is rounded towards 0.
unfoldable pub scaled : ℕ → ℕ → ℕ
scaled dpi v =
    let p = v * dpi % 2 ^ 32 in
    if ltb p (2 ^ 31) then p / 96 else (2 ^ 32 - (2 ^ 32 - p) / 96) % 2 ^ 32

-- `systemDPI`: whether `GetDpiForSystem` is there, and its result.
unfoldable pub system_dpi : Option ℕ → ℕ
system_dpi none = 96
system_dpi (some dpi) = if dpi == 0 then 96 else dpi

-- `commandID`
unfoldable pub command_id : ℕ → ℕ
command_id wparam = wparam % 2 ^ 16

-- The loop of `listUpdateHorizontalExtent` over the widths of the rows.
unfoldable pub widest : ℕ → List ℕ → ℕ
widest w [] = w
widest w (width ∷ widths) = widest (if ltb w width then width else w) widths

-- `listUpdateHorizontalExtent`, with `measureTextWidth` as a parameter.
unfoldable pub horizontal_extent : (Text → ℕ) → List Text → ℕ
unfolding widest
horizontal_extent measure rows =
    let w = widest 0 (map measure rows) in if ltb 0 w then w + 16 else w
