-- ===== src/Legacy/Menu.antt =====
-- old/pkg/wintray/menuitem.go and the queue of commands of wintray.go: a change of a menu item is
-- shown only when the thread of the tray runs the command that the change has put into the queue.
-- The calls of Windows succeed, and a full queue, which only makes the caller wait, is left out.
use omni_sshagent.Base.{
  ℕ, Bool, true, false, ◌||◌, List, [], ◌∷◌, ◌++◌, Option, some, ◌==◌, if◌then◌else◌, ◌≡◌, ◌⊎◌, inl,
  inr, sym, ap, ==_iff, arith, Bool-cases, All,
}

-- `MenuItem`: the two flags that change. Title and identifier stay as they are.
pub record Item : Type 0 where
  pub disabled : Bool
  pub checked : Bool

-- The items and what the menu shows of each, by their identifiers; a command in the queue holds the
-- item itself, and reads its flags when it runs.
pub record Menu : Type 0 where
  pub items : ℕ → Item
  pub queue : List ℕ
  pub shown : ℕ → Option Item
  pub shutting_down : Bool

abbrev pub put {ℓ} : {A : Type ℓ} → ℕ → A → (ℕ → A) → ℕ → A
put id a f j = if j == id then a else f j

-- `enqueueCommand` of an update
unfoldable pub enqueue : ℕ → Menu → Menu
enqueue id m = if m.shutting_down then m else record m { queue = m.queue ++ id ∷ [] }

unfoldable pub set_item : ℕ → Item → Menu → Menu
unfolding enqueue
set_item id item m = enqueue id (record m { items = put id item m.items })

-- `Enable`, `Disable`, `Check` and `Uncheck`
unfoldable pub enable : ℕ → Menu → Menu
unfolding set_item
enable id m = set_item id (record (m.items id) { disabled = false }) m

unfoldable pub disable : ℕ → Menu → Menu
unfolding set_item
disable id m = set_item id (record (m.items id) { disabled = true }) m

unfoldable pub check : ℕ → Menu → Menu
unfolding set_item
check id m = set_item id (record (m.items id) { checked = true }) m

unfoldable pub uncheck : ℕ → Menu → Menu
unfolding set_item
uncheck id m = set_item id (record (m.items id) { checked = false }) m

unfoldable pub run_commands : List ℕ → (ℕ → Item) → (ℕ → Option Item) → ℕ → Option Item
run_commands [] items shown = shown
run_commands (id ∷ queue) items shown = run_commands queue items (put id (some (items id)) shown)

-- `handleCommands`
unfoldable pub handle_commands : Menu → Menu
unfolding run_commands
handle_commands m = record m { queue = []; shown = run_commands m.queue m.items m.shown }

-- `stopCommandQueue`
unfoldable pub stop_command_queue : Menu → Menu
stop_command_queue m = record m { shutting_down = true }

pub data Change : Type 0 where
  enabling disabling checking unchecking : ℕ → Change
  handling stopping : Change

unfoldable pub change : Change → Menu → Menu
unfolding enable disable check uncheck handle_commands stop_command_queue
change (enabling id) m = enable id m
change (disabling id) m = disable id m
change (checking id) m = check id m
change (unchecking id) m = uncheck id m
change handling m = handle_commands m
change stopping m = stop_command_queue m

unfoldable pub changes : List Change → Menu → Menu
unfolding change
changes [] m = m
changes (c ∷ cs) m = changes cs (change c m)

-- Whether an update of an item waits.
unfoldable pub awaits : ℕ → List ℕ → Bool
awaits id [] = false
awaits id (j ∷ queue) = id == j || awaits id queue

-- The menu shows the item as it is, or an update of it waits.
abbrev pub IsTracked : ℕ → Menu → Type 0
IsTracked id m = (m.shown id ≡ some (m.items id)) ⊎ (awaits id m.queue ≡ true)

run_commands_shown :
    (queue : List ℕ) (items : ℕ → Item) (shown : ℕ → Option Item) (id : ℕ)
    → (shown id ≡ some (items id)) ⊎ (awaits id queue ≡ true)
    → run_commands queue items shown id ≡ some (items id)
unfolding run_commands awaits
run_commands_shown [] items shown id (inl h) = h
run_commands_shown [] items shown id (inr h) = ground (arith, h)
run_commands_shown (j ∷ queue) items shown id h = elim (Bool-cases (id == j)) [
  | inl e ↦
      run_commands_shown queue items (put j (some (items j)) shown) id
        (inl (rw (e) (ap (λ (n : ℕ). some (items n)) (sym ((==_iff id j).0 e)))))
  | inr e ↦ run_commands_shown queue items (put j (some (items j)) shown) id (rw (e) (later e h))
]
  where
    later :
        (id == j) ≡ false
        → (shown id ≡ some (items id)) ⊎ ((id == j || awaits id queue) ≡ true)
        → (shown id ≡ some (items id)) ⊎ (awaits id queue ≡ true)
    later e (inl h) = inl h
    later e (inr h) = inr (ground (arith, e, h))

awaits-append :
    (id j : ℕ) (queue : List ℕ) → awaits id (queue ++ j ∷ []) ≡ (awaits id queue || id == j)
unfolding awaits
awaits-append id j [] = ground arith
awaits-append id j (k ∷ queue) = ground (arith, awaits-append id j queue)

set_item-IsTracked :
    (id j : ℕ) (item : Item) (m : Menu)
    → m.shutting_down ≡ false
    → IsTracked id m
    → IsTracked id (set_item j item m)
unfolding set_item enqueue
set_item-IsTracked id j item m open' h = elim (Bool-cases (id == j)) [
  | inl e ↦ rw (open', set_item, enqueue) (inr (ground (arith, e, awaits-append id j m.queue)))
  | inr e ↦ rw (open', set_item, enqueue) (rw (e) (still h))
]
  where
    still : IsTracked id m → IsTracked id (record m { queue = m.queue ++ j ∷ [] })
    still (inl h) = inl h
    still (inr h) = inr (ground (arith, h, awaits-append id j m.queue))

set_item_open :
    (j : ℕ) (item : Item) (m : Menu)
    → m.shutting_down ≡ false
    → (set_item j item m).shutting_down ≡ false
unfolding set_item enqueue
set_item_open j item m h = ground (arith, h)

-- Every change but the end of the queue.
abbrev pub IsLive : Change → Type 0
IsLive stopping = ⊥
IsLive (enabling id) = Unit
IsLive (disabling id) = Unit
IsLive (checking id) = Unit
IsLive (unchecking id) = Unit
IsLive handling = Unit

abbrev pub Tracks : ℕ → Menu → Type 0
Tracks id m = (m.shutting_down ≡ false) × IsTracked id m

change-Tracks : (id : ℕ) (c : Change) (m : Menu) → IsLive c → Tracks id m → Tracks id (change c m)
unfolding change enable disable check uncheck handle_commands
change-Tracks id (enabling j) m l h = (set_item_open j _ m h.0, set_item-IsTracked id j _ m h.0 h.1)
change-Tracks id (disabling j) m l h =
    (set_item_open j _ m h.0, set_item-IsTracked id j _ m h.0 h.1)
change-Tracks id (checking j) m l h = (set_item_open j _ m h.0, set_item-IsTracked id j _ m h.0 h.1)
change-Tracks id (unchecking j) m l h =
    (set_item_open j _ m h.0, set_item-IsTracked id j _ m h.0 h.1)
change-Tracks id handling m l h = (h.0, inl (run_commands_shown m.queue m.items m.shown id h.1))
change-Tracks id stopping m l h = absurd l

changes-Tracks :
    (id : ℕ) (cs : List Change) (m : Menu) → All IsLive cs → Tracks id m → Tracks id (changes cs m)
unfolding changes
changes-Tracks id [] m l h = h
changes-Tracks id (c ∷ cs) m l h =
    changes-Tracks id cs (change c m) l.1 (change-Tracks id c m l.0 h)

-- Until the queue is stopped, once the thread of the tray has run the commands, the menu shows an
-- item as it is after all the changes before, if it did so at the start or an update of it waited.
pub handle_commands-changes :
    (id : ℕ) (cs : List Change) (m : Menu)
    → All IsLive cs
    → Tracks id m
    → (handle_commands (changes cs m)).shown id ≡ some ((changes cs m).items id)
unfolding handle_commands
handle_commands-changes id cs m l h =
    run_commands_shown (changes cs m).queue (changes cs m).items (changes cs m).shown id
      (changes-Tracks id cs m l h).1
