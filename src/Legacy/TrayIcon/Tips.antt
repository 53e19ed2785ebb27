-- ===== src/Legacy/TrayIcon/Tips.antt =====
-- old/pkg/wintray/wintray.go: the texts that the icon hands to Windows, `SetTooltip` and
-- `ShowBalloonNotification`. `units` stands for the code units that package utf16 gives for a text.
use omni_sshagent.Base.{
  ℕ, zero, suc, ◌≤◌, ◌<◌, false, List, [], ◌∷◌, ◌++◌, Option, none, some, if◌then◌else◌, ◌≡◌, ◌⊎◌,
  inl, inr, refl, ap, arith, length, All, ltb, Bool-cases,
}
use omni_sshagent.Base.Text.{Text, contains, is_empty}
use omni_sshagent.Tray.Dialog.{utf16_from_string, until_zero}
use omni_sshagent.Tray.Dialog.Texts.{IsUnit, from_string}

-- `copy` to an array of this length, which holds zeros.
unfoldable pub filled : ℕ → List ℕ → List ℕ
filled zero us = []
filled (suc n) [] = 0 ∷ filled n []
filled (suc n) (u ∷ us) = u ∷ filled n us

-- The fields of `notifyIconData` that hold texts.
pub record IconData : Type 0 where
  pub tip : List ℕ
  pub info_title : List ℕ
  pub info : List ℕ

abbrev empty_data : IconData
empty_data = record { tip = filled 128 []; info_title = filled 64 []; info = filled 256 [] }

module _ (units : Text → List ℕ) where
  -- `copy` of `StringToUTF16`, which panics on a NUL.
  unfoldable pub copy_text : ℕ → Text → Option (List ℕ)
  unfolding utf16_from_string filled
  copy_text n text = elim (utf16_from_string units text) [
    | none ↦ none
    | some encoded ↦ some (filled n encoded)
  ]

  -- The command of `SetTooltip`.
  unfoldable pub set_tooltip : Text → Option IconData
  unfolding copy_text
  set_tooltip tooltip = elim (copy_text 128 tooltip) [
    | none ↦ none
    | some tip ↦ some (record empty_data { tip = tip })
  ]

  with_info : Text → IconData → Option IconData
  unfolding copy_text
  with_info text data' = elim (copy_text 256 text) [
    | none ↦ none
    | some info ↦ some (record data' { info = info })
  ]

  with_title : Text → Option (List ℕ) → Option IconData
  unfolding with_info
  with_title text none = none
  with_title text (some title) = with_info text (record empty_data { info_title = title })

  -- The command of `ShowBalloonNotification`.
  unfoldable pub show_balloon : Text → Text → Option IconData
  unfolding with_info with_title copy_text
  show_balloon title text =
      if is_empty title then with_info text empty_data else with_title text (copy_text 64 title)

filled-short :
    (n : ℕ) (us : List ℕ)
    → All IsUnit us
    → length us < n
    → until_zero (filled n (us ++ 0 ∷ [])) ≡ us
unfolding until_zero filled
filled-short zero us h l = absurd (omega arith)
filled-short (suc n) [] h l = refl
filled-short (suc n) (u ∷ us) h l =
    rw (h.0) (ap (λ (l' : List ℕ). u ∷ l') (filled-short n us h.1 (omega arith)))

filled-long :
    (n : ℕ) (us : List ℕ) → All IsUnit us → n ≤ length us → All IsUnit (filled n (us ++ 0 ∷ []))
unfolding filled
filled-long zero us h l = tt
filled-long (suc n) [] h l = absurd (omega arith)
filled-long (suc n) (u ∷ us) h l = (h.0, filled-long n us h.1 (omega arith))

copy_text-text :
    (units : Text → List ℕ) (n : ℕ) (text : Text)
    → contains text 0 ≡ false
    → copy_text units n text ≡ some (filled n (units text ++ 0 ∷ []))
unfolding copy_text filled
copy_text-text units n text c = rw (from_string units text c, copy_text) refl

-- A text with no NUL that is shorter than the field reads as it is. One that is not shorter fills
-- the field to its end without a 0, so that Windows reads on behind it.
pub copy_text-ends :
    (units : Text → List ℕ) (n : ℕ) (text : Text)
    → contains text 0 ≡ false
    → All IsUnit (units text)
    → (field : List ℕ) × (copy_text units n text ≡ some field)
      × (((length (units text) < n) × (until_zero field ≡ units text))
          ⊎ ((n ≤ length (units text)) × All IsUnit field))
copy_text-ends units n text c h =
    (filled n (units text ++ 0 ∷ []), copy_text-text units n text c, ends)
  where
    ends :
        ((length (units text) < n) × (until_zero (filled n (units text ++ 0 ∷ [])) ≡ units text))
        ⊎ ((n ≤ length (units text)) × All IsUnit (filled n (units text ++ 0 ∷ [])))
    ends = elim (Bool-cases (ltb (length (units text)) n)) [
      | inl e ↦
          let l : length (units text) < n = ground (arith, e) in
          inl (l, filled-short n (units text) h l)
      | inr e ↦
          let l : n ≤ length (units text) = ground (arith, e) in
          inr (l, filled-long n (units text) h l)
    ]
