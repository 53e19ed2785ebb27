-- ===== src/Tray/Dialog/Windows/Layout.antt =====
-- Where the controls of the dialogs of internal/tray/settings_windows.go and keys_windows.go stand.
use omni_sshagent.Base.{ℕ, ◌+◌, ◌*◌, ◌/◌, ◌^◌, ◌≤◌, ◌<◌, ◌≡◌, All, arith}
use omni_sshagent.Base.Text.{Text}
use omni_sshagent.Tray.Dialog.{scaled}
use omni_sshagent.Tray.Dialog.Windows.{
  Control, settings_size, keys_size, password_size, settings_controls, keys_controls,
  password_controls,
}

-- A control within a window of this width and height.
abbrev pub IsInside : ℕ × ℕ → Control → Type 0
IsInside size c = (c.x + c.w ≤ size.0) × (c.y + c.h ≤ size.1)

small_product : (dpi v : ℕ) → v ≤ 546 → dpi * 546 < 2 ^ 31 → v * dpi < 2 ^ 31
small_product dpi v low fits = grind arith

module _ (dpi : ℕ) (fits : dpi * 546 < 2 ^ 31) where
  fit : (v : ℕ) → v ≤ 546 → scaled dpi v ≡ v * dpi / 96
  unfolding scaled
  fit v low = ground (arith, small_product dpi v low fits)

  settings_controls-IsInside : All (IsInside (settings_size dpi)) (settings_controls dpi)
  unfolding settings_controls settings_size
  settings_controls-IsInside = omega (
    arith,
    fit 8 (omega arith),
    fit 10 (omega arith),
    fit 12 (omega arith),
    fit 20 (omega arith),
    fit 22 (omega arith),
    fit 23 (omega arith),
    fit 24 (omega arith),
    fit 46 (omega arith),
    fit 48 (omega arith),
    fit 50 (omega arith),
    fit 52 (omega arith),
    fit 54 (omega arith),
    fit 74 (omega arith),
    fit 76 (omega arith),
    fit 78 (omega arith),
    fit 80 (omega arith),
    fit 84 (omega arith),
    fit 88 (omega arith),
    fit 92 (omega arith),
    fit 96 (omega arith),
    fit 100 (omega arith),
    fit 108 (omega arith),
    fit 118 (omega arith),
    fit 120 (omega arith),
    fit 140 (omega arith),
    fit 174 (omega arith),
    fit 216 (omega arith),
    fit 220 (omega arith),
    fit 310 (omega arith),
    fit 404 (omega arith),
    fit 448 (omega arith),
    fit 468 (omega arith),
    fit 492 (omega arith),
    fit 546 (omega arith),
  )

  keys_controls-IsInside : All (IsInside (keys_size dpi)) (keys_controls dpi)
  unfolding keys_controls keys_size
  keys_controls-IsInside = omega (
    arith,
    fit 8 (omega arith),
    fit 12 (omega arith),
    fit 24 (omega arith),
    fit 88 (omega arith),
    fit 240 (omega arith),
    fit 360 (omega arith),
    fit 392 (omega arith),
    fit 468 (omega arith),
    fit 492 (omega arith),
  )

  password_controls-IsInside :
      (name : Text) → All (IsInside (password_size dpi)) (password_controls dpi name)
  unfolding password_controls password_size
  password_controls-IsInside name = omega (
    arith,
    fit 12 (omega arith),
    fit 23 (omega arith),
    fit 24 (omega arith),
    fit 36 (omega arith),
    fit 52 (omega arith),
    fit 88 (omega arith),
    fit 92 (omega arith),
    fit 168 (omega arith),
    fit 176 (omega arith),
    fit 272 (omega arith),
    fit 348 (omega arith),
    fit 380 (omega arith),
  )

-- At every resolution whose product with 546 fits in 31 bits, all controls of the three dialogs lie
-- within the windows that are made for them.
pub controls-IsInside :
    (dpi : ℕ) (name : Text)
    → dpi * 546 < 2 ^ 31
    → All (IsInside (settings_size dpi)) (settings_controls dpi)
      × All (IsInside (keys_size dpi)) (keys_controls dpi)
      × All (IsInside (password_size dpi)) (password_controls dpi name)
controls-IsInside dpi name fits = (
  settings_controls-IsInside dpi fits,
  keys_controls-IsInside dpi fits,
  password_controls-IsInside dpi fits name,
)
