-- ===== src/Tray/Icon/Laws.antt =====
-- The entry that `createIcon` of internal/tray/tray_windows.go takes, and the bytes that it cuts.
use omni_sshagent.Base.{ℕ, ◌+◌, ◌*◌, ◌≤◌, ◌<◌, Option, none, some, length, take, drop, ◌≡◌}
use omni_sshagent.Files.{Bytes}
use omni_sshagent.Tray.Icon.{
  le16, le32, score, Best, choose, no_entry, Image, invalid, truncated, outside, image,
}

module _ (ico : Bytes) (width height : ℕ) where
  -- Entry `i` of the directory lies within the file.
  abbrev pub HasEntry : ℕ → Type 0
  HasEntry i = 6 + i * 16 + 15 < length ico

  -- The best entry of a range of the directory.
  abbrev IsBest : ℕ → ℕ → Best → Type 0
  IsBest i n b =
      (j s : ℕ) → i ≤ j → j < i + n → score ico width height j ≡ some s → b.best_score ≤ s

  -- Size and offset as they stand in entry `i` of the directory, with its distance.
  abbrev pub IsEntry : ℕ → Best → Type 0
  IsEntry i b =
      (le32 ico (6 + i * 16 + 8) ≡ some b.size)
      × (le32 ico (6 + i * 16 + 12) ≡ some b.offset)
      × (score ico width height i ≡ some b.best_score)

  -- What an icon is cut from: the best entry of the directory, which lies within the file.
  pub record IsCut (bytes : Bytes) : Type 0 where
    pub count : ℕ
    pub best : Best
    pub counted : le16 ico 4 ≡ some count
    pub chosen : choose ico width height count 0 no_entry ≡ some best
    pub is_best : IsBest 0 count best
    pub entry : ℕ
    pub entry_listed : entry < count
    pub is_entry : IsEntry entry best
    pub not_empty : 0 < best.size
    pub within : best.offset + best.size ≤ length ico
    pub is_slice : bytes ≡ take best.size (drop best.offset ico)
    pub sized : length bytes ≡ best.size

  -- How `createIcon` ends: with one of its errors, or with the bytes of an image.
  abbrev pub Ends : Option Image → Type 0
  Ends none = ⊥
  Ends (some invalid) = Unit
  Ends (some truncated) = Unit
  Ends (some outside) = Unit
  Ends (some (image bytes)) = IsCut bytes
