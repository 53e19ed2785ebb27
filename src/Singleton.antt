-- ===== src/Singleton.antt =====
-- internal/singleton/mutex_windows.go: `Acquire` and `Close`. A handle is a number, and 0 is none.
use omni_sshagent.Base.{
  ℕ, Bool, true, false, List, [], ◌∷◌, Option, none, some, Result, ok, err, ◌≡◌, ◌⊎◌, inl, inr,
  refl, if◌then◌else◌, ◌==◌,
}
use omni_sshagent.Files.{OsError}

-- What `CreateMutex` returns.
pub data Created : Type 0 where
  exists : ℕ → Created
  create_failed : OsError → Created
  created : ℕ → Created

pub record Windows : Type 0 where
  pub utf16_error : Option OsError
  pub create_mutex : Created
  pub last_error_exists : Bool

pub data AcquireError : Type 0 where
  already_running : AcquireError
  name_failed mutex_failed : OsError → AcquireError

-- The handles that were opened by `CreateMutex`, and closed.
pub record Handles : Type 0 where
  pub opened : List ℕ
  pub closed : List ℕ

abbrev closing : ℕ → List ℕ
closing h = if h == 0 then [] else h ∷ []

created_mutex : Windows → Created → Result AcquireError ℕ × Handles
created_mutex w (exists h) =
    (err already_running, record { opened = closing h; closed = closing h })
created_mutex w (create_failed e) = (err (mutex_failed e), record { opened = []; closed = [] })
created_mutex w (created h) =
    if w.last_error_exists
    then (err already_running, record { opened = h ∷ []; closed = h ∷ [] })
    else (ok h, record { opened = h ∷ []; closed = [] })

unfoldable pub acquire : Windows → Result AcquireError ℕ × Handles
unfolding created_mutex
acquire w = elim w.utf16_error [
  | some e ↦ (err (name_failed e), record { opened = []; closed = [] })
  | none ↦ created_mutex w w.create_mutex
]

-- `Close` on the handle of a `Mutex`: the handle behind it, and what was closed.
unfoldable pub close : ℕ → ℕ × List ℕ
close h = if h == 0 then (0, []) else (0, h ∷ [])

-- `Acquire` keeps a handle only if it has made the mutex itself and reports success, and then it
-- is the only one that it has opened; in every other case it has closed every handle it opened.
pub acquire_holds :
    (w : Windows)
    → ((h : ℕ) × ((acquire w).0 ≡ ok h)
        × (w.create_mutex ≡ created h)
        × (w.last_error_exists ≡ false)
        × ((acquire w).1.opened ≡ h ∷ [])
        × ((acquire w).1.closed ≡ []))
      ⊎ ((e : AcquireError) × ((acquire w).0 ≡ err e)
          × ((acquire w).1.closed ≡ (acquire w).1.opened))
unfolding acquire
acquire_holds w = go w.utf16_error w.create_mutex w.last_error_exists
  where
    go :
        (u : Option OsError) (c : Created) (b : Bool)
        → (let v : Windows = record { utf16_error = u; create_mutex = c; last_error_exists = b } in
            ((h : ℕ) × ((acquire v).0 ≡ ok h)
              × (c ≡ created h)
              × (b ≡ false)
              × ((acquire v).1.opened ≡ h ∷ [])
              × ((acquire v).1.closed ≡ []))
            ⊎ ((e : AcquireError) × ((acquire v).0 ≡ err e)
                × ((acquire v).1.closed ≡ (acquire v).1.opened)))
    go (some e) c b = inr (name_failed e, refl, refl)
    go none (exists h) b = inr (already_running, refl, refl)
    go none (create_failed e) b = inr (mutex_failed e, refl, refl)
    go none (created h) true = inr (already_running, refl, refl)
    go none (created h) false = inl (h, refl, refl, refl, refl, refl)
