-- ===== src/Autostart.antt =====
-- internal/autostart/autostart_windows.go: the value of the registry that starts the program with the
-- sign-in. The errors of the calls, and what `strings.EqualFold` says, are arguments.
use omni_sshagent.Base.{
  ℕ, Bool, true, false, not, ◌||◌, [], ◌∷◌, ◌++◌, Option, none, some, Result, ok, err, ◌≡◌, refl,
  arith, if◌then◌else◌,
}
use omni_sshagent.Base.Text.{Text, trim_space, trim_left, trim_right, is_space}
use omni_sshagent.Files.{OsError}

-- The key `Run`, and the value of this program where there is one.
pub record Registry : Type 0 where
  pub has_key : Bool
  pub value : Option Text

-- How the calls answer beyond what the registry holds: `os.Executable`, an error of the key other
-- than that it is missing, and one of the value.
pub record Answers : Type 0 where
  pub executable : Result OsError Text
  pub key_error : Option OsError
  pub value_error : Option OsError

abbrev quote : ℕ
quote = b'"'

unfoldable pub quote_executable : Text → Text
quote_executable executable = quote ∷ (executable ++ quote ∷ [])

module _ (equal_fold : Text → Text → Bool) where
  unfoldable pub command_targets : Text → Text → Bool
  command_targets command executable =
      equal_fold (trim_space command) executable
      || equal_fold (trim_space command) (quote_executable executable)

  -- `Enabled` once the key is open.
  read_value : Text → Answers → Option Text → Result OsError Bool
  read_value executable a none = elim a.value_error [ some e ↦ err e | none ↦ ok false ]
  read_value executable a (some command) = elim a.value_error [
    | some e ↦ err e
    | none ↦ ok (command_targets command executable)
  ]

  read_key : Text → Answers → Registry → Result OsError Bool
  unfolding read_value
  read_key executable a r = elim a.key_error [
    | some e ↦ err e
    | none ↦ if not r.has_key then ok false else read_value executable a r.value
  ]

  unfoldable pub enabled : Answers → Registry → Result OsError Bool
  unfolding read_key
  enabled a r = elim a.executable [ err e ↦ err e | ok executable ↦ read_key executable a r ]

  disable : Answers → Registry → Registry × Option OsError
  disable a r = elim a.key_error [
    | some e ↦ (r, some e)
    | none ↦ if not r.has_key then (r, none) else elim a.value_error [
      | some e ↦ (r, some e)
      | none ↦ (record { has_key = true; value = none }, none)
    ]
  ]

  -- `CreateKey` leaves the key behind even if the value cannot be set.
  enable : Text → Answers → Registry → Registry × Option OsError
  enable executable a r = elim a.key_error [
    | some e ↦ (r, some e)
    | none ↦ elim a.value_error [
      | some e ↦ (record r { has_key = true }, some e)
      | none ↦ (record { has_key = true; value = some (quote_executable executable) }, none)
    ]
  ]

  unfoldable pub set_enabled : Bool → Answers → Registry → Registry × Option OsError
  unfolding disable enable
  set_enabled false a r = disable a r
  set_enabled true a r = elim a.executable [
    | err e ↦ (r, some e)
    | ok executable ↦ enable executable a r
  ]

  trim_right-quoted : (s : Text) → trim_right (s ++ quote ∷ []) ≡ s ++ quote ∷ []
  unfolding trim_right is_space
  trim_right-quoted [] = refl
  trim_right-quoted (c ∷ []) = ground arith
  trim_right-quoted (c ∷ d ∷ s) = ground (arith, trim_right-quoted (d ∷ s))

  trim_space-quote_executable : (s : Text) → trim_space (quote_executable s) ≡ quote_executable s
  unfolding trim_space trim_left is_space quote_executable
  trim_space-quote_executable s = trim_right-quoted (quote ∷ s)

  command_targets-quote_executable :
      (s : Text)
      → equal_fold (quote_executable s) (quote_executable s) ≡ true
      → command_targets (quote_executable s) s ≡ true
  unfolding command_targets
  command_targets-quote_executable s h = ground (arith, trim_space-quote_executable s)

  -- What `SetEnabled` has set without an error is what the next `Enabled` of the same program reads,
  -- provided that it can open the key and the value, and that `strings.EqualFold` holds of equal
  -- texts.
  pub enabled-set_enabled :
      (flag : Bool) (a b : Answers) (r : Registry) (executable : Text)
      → a.executable ≡ ok executable
      → b.executable ≡ ok executable
      → b.key_error ≡ none
      → b.value_error ≡ none
      → equal_fold (quote_executable executable) (quote_executable executable) ≡ true
      → (set_enabled flag a r).1 ≡ none
      → enabled b (set_enabled flag a r).0 ≡ ok flag
  unfolding enabled set_enabled
  enabled-set_enabled false a b r executable name same key value fold done = ground arith
  enabled-set_enabled true a b r executable name same key value fold done =
      ground (arith, command_targets-quote_executable executable fold)
