-- ===== src/Tray/Run/Handles.antt =====
-- The handles that `initialize` of internal/tray/tray_windows.go makes, one stage after the other.
use omni_sshagent.Base.{
  ℕ, false, List, [], ◌∷◌, ◌++◌, map, Option, none, some, ◌==◌, ◌≡◌, ◌⊎◌, inl, inr, refl, ap, ◌∙◌,
  arith, ok, err, Bool-cases,
}
use omni_sshagent.Tray.Icon.{create_icon, Image, image}
use omni_sshagent.Tray.Machine.{Tray, Call, apply_state, apply_menu_checks}
use omni_sshagent.Tray.Machine.Handles.{Handle, window, icon, menu, destroyed_by, has_quit}
use omni_sshagent.Tray.Run.{
  Act, window_made, icon_made, menu_made, entry_appended, called, RunError, CallError, MenuEntry,
  Startup, Started, checked, doing, append_entries, show_first, with_menu, make_menu, with_icon,
  make_icon, read_icon, with_message, with_window, with_class, with_instance, initialize,
  required_menu_entries, int32_result, icon_call,
}

abbrev pub made : List Act → List Handle
made [] = []
made (window_made n ∷ acts) = window n ∷ made acts
made (icon_made n ∷ acts) = icon n ∷ made acts
made (menu_made n ∷ acts) = menu n ∷ made acts
made (_ ∷ acts) = made acts

abbrev pub calls_of : List Act → List Call
calls_of [] = []
calls_of (called c ∷ acts) = c ∷ calls_of acts
calls_of (_ ∷ acts) = calls_of acts

-- The handles that the acts destroy.
abbrev pub given_back : List Act → List Handle
given_back acts = destroyed_by (calls_of acts)

pub made-called : (calls : List Call) → made (map called calls) ≡ []
made-called [] = refl
made-called (c ∷ calls) = made-called calls

pub calls_of-called : (calls : List Call) → calls_of (map called calls) ≡ calls
calls_of-called [] = refl
calls_of-called (c ∷ calls) = ap (λ k. c ∷ k) (calls_of-called calls)

pub calls_of-append : (a b : List Act) → calls_of (a ++ b) ≡ calls_of a ++ calls_of b
calls_of-append [] b = refl
calls_of-append (called c ∷ a) b = ap (λ k. c ∷ k) (calls_of-append a b)
calls_of-append (_ ∷ a) b = calls_of-append a b

pub made-append : (a b : List Act) → made (a ++ b) ≡ made a ++ made b
made-append [] b = refl
made-append (window_made n ∷ a) b = ap (λ k. window n ∷ k) (made-append a b)
made-append (icon_made n ∷ a) b = ap (λ k. icon n ∷ k) (made-append a b)
made-append (menu_made n ∷ a) b = ap (λ k. menu n ∷ k) (made-append a b)
made-append (_ ∷ a) b = made-append a b

-- A stage of `initialize`: it destroys nothing, and either fails or meets `R`, of the tray and of
-- the handles that it has made.
abbrev pub Stage : (Tray → List Handle → Type 0) → Started → Type 0
Stage R s =
    (given_back s.acts ≡ [])
    × (has_quit (calls_of s.acts) ≡ false)
    × (s.tray.added ≡ false)
    × (((e : RunError) × (s.error ≡ some e)) ⊎ ((s.error ≡ none) × R s.tray (made s.acts)))

checked-Stage :
    (R : Tray → List Handle → Type 0) (answer : ℕ × CallError) (t : Tray) (next : ℕ → Started)
    → t.added ≡ false
    → ((answer.0 == 0) ≡ false → Stage R (next answer.0))
    → Stage R (checked answer t next)
unfolding checked
checked-Stage R (handle, e) t next a h = elim (Bool-cases (handle == 0)) [
  | inl failed ↦ rw (failed) (refl, refl, a, inl (_, refl))
  | inr fine ↦ rw (fine) (h fine)
]

append_entries-Stage :
    (R : Tray → List Handle → Type 0) (s : Startup) (t : Tray) (es : List MenuEntry)
    (done : Started)
    → t.added ≡ false
    → Stage R done
    → Stage R (append_entries s t es done)
unfolding append_entries
append_entries-Stage R s t [] done a h = h
append_entries-Stage R s t (e ∷ es) done a h =
    checked-Stage R (s.append_menu e) t
      (λ _. doing (entry_appended e ∷ []) (append_entries s t es done)) a
      (λ _. append_entries-Stage R s t es done a h)

abbrev AfterMenu : Tray → Tray → List Handle → Type 0
AfterMenu t u hs =
    (u.window ≡ t.window) × (u.icon ≡ t.icon) × ((u.menu == 0) ≡ false) × (hs ≡ menu u.menu ∷ [])

abbrev AfterIcon : Tray → Tray → List Handle → Type 0
AfterIcon t u hs =
    (u.window ≡ t.window)
    × ((u.icon == 0) ≡ false)
    × ((u.menu == 0) ≡ false)
    × (hs ≡ icon u.icon ∷ menu u.menu ∷ [])

abbrev pub AfterWindow : Tray → List Handle → Type 0
AfterWindow u hs =
    ((u.window == 0) ≡ false)
    × ((u.icon == 0) ≡ false)
    × ((u.menu == 0) ≡ false)
    × (hs ≡ window u.window ∷ icon u.icon ∷ menu u.menu ∷ [])

first_calls_quiet :
    (s : Startup) (t : Tray)
    → (destroyed_by (apply_menu_checks s.answers ++ (apply_state t).1) ≡ [])
      × (has_quit (apply_menu_checks s.answers ++ (apply_state t).1) ≡ false)
unfolding apply_menu_checks apply_state
first_calls_quiet s t = ground arith

show_first-Stage :
    (R : Tray → List Handle → Type 0) (s : Startup) (t : Tray)
    → t.added ≡ false
    → R t []
    → Stage R (show_first s t)
unfolding show_first
show_first-Stage R s t a h =
    let calls : List Call = apply_menu_checks s.answers ++ (apply_state t).1 in
    rw (calls_of-called calls, made-called calls)
      (
        (first_calls_quiet s t).0,
        (first_calls_quiet s t).1,
        unfold apply_state in a,
        inr (refl, unfold apply_state in h),
      )

Stage-imp :
    (R S : Tray → List Handle → Type 0) (s : Started)
    → ((u : Tray) (hs : List Handle) → R u hs → S u hs)
    → Stage R s
    → Stage S s
Stage-imp R S s f (given, quits, added, inl failed) = (given, quits, added, inl failed)
Stage-imp R S s f (given, quits, added, inr (fine, r)) =
    (given, quits, added, inr (fine, f s.tray (made s.acts) r))

-- The stages from the last to the first; each adds its handle to those behind it.
with_menu-Stage :
    (s : Startup) (t : Tray) (n : ℕ)
    → t.added ≡ false
    → (n == 0) ≡ false
    → Stage (AfterMenu t) (with_menu s t n)
unfolding with_menu
with_menu-Stage s t n a fine =
    let t' : Tray = record t { menu = n } in
    let R : Tray → List Handle → Type 0 = λ u hs. AfterMenu t u (menu n ∷ hs) in
    append_entries-Stage R s t' required_menu_entries (show_first s t') a
      (show_first-Stage R s t' a (refl, refl, fine, refl))

make_menu-Stage : (s : Startup) (t : Tray) → t.added ≡ false → Stage (AfterMenu t) (make_menu s t)
unfolding make_menu
make_menu-Stage s t a =
    checked-Stage (AfterMenu t) s.create_menu t (with_menu s t) a
      (with_menu-Stage s t s.create_menu.0 a)

with_icon-Stage :
    (s : Startup) (t : Tray) (n : ℕ)
    → t.added ≡ false
    → (n == 0) ≡ false
    → Stage (AfterIcon t) (with_icon s t n)
unfolding with_icon
with_icon-Stage s t n a fine =
    let t' : Tray = record t { icon = n } in
    Stage-imp (AfterMenu t') (λ u hs. AfterIcon t u (icon n ∷ hs)) (make_menu s t')
      (λ u hs r. (r.0, rw (r.1) fine, r.2, ap (λ k. icon n ∷ k) r.3 ∙ rw (r.1) refl))
      (make_menu-Stage s t' a)

make_icon-Stage :
    (s : Startup) (t : Tray) (i : Option Image)
    → t.added ≡ false
    → Stage (AfterIcon t) (make_icon s t i)
unfolding make_icon
make_icon-Stage s t (some (image bytes)) a =
    checked-Stage (AfterIcon t) (icon_call (s.create_icon_handle bytes)) t (with_icon s t) a
      (with_icon-Stage s t (icon_call (s.create_icon_handle bytes)).0 a)
make_icon-Stage s t (some Image.invalid) a = (refl, refl, a, inl (_, refl))
make_icon-Stage s t (some Image.truncated) a = (refl, refl, a, inl (_, refl))
make_icon-Stage s t (some Image.outside) a = (refl, refl, a, inl (_, refl))
make_icon-Stage s t none a = (refl, refl, a, inl (_, refl))

with_message-Stage :
    (s : Startup) (t : Tray) (n : ℕ) → t.added ≡ false → Stage (AfterIcon t) (with_message s t n)
unfolding with_message read_icon
with_message-Stage s t n a =
    elim s.icon_file
      as (λ file. Stage (AfterIcon t) (read_icon s (record t { taskbar_created = n }) file)) [
        | err e ↦ (refl, refl, a, inl (_, refl))
        | ok bytes ↦
            make_icon-Stage s (record t { taskbar_created = n })
              (create_icon bytes (int32_result s.icon_width) (int32_result s.icon_height)) a
      ]

with_window-Stage :
    (s : Startup) (t : Tray) (n : ℕ)
    → t.added ≡ false
    → (n == 0) ≡ false
    → Stage AfterWindow (with_window s t n)
unfolding with_window
with_window-Stage s t n a fine =
    let t' : Tray = record t { window = n } in
    let next : Started = checked s.taskbar_message t' (with_message s t') in
    Stage-imp (AfterIcon t') (λ u hs. AfterWindow u (window n ∷ hs)) next
      (λ u hs r. (rw (r.0) fine, r.1, r.2, ap (λ k. window n ∷ k) r.3 ∙ rw (r.0) refl))
      (checked-Stage (AfterIcon t') s.taskbar_message t' (with_message s t') a
        (λ _. with_message-Stage s t' s.taskbar_message.0 a))

pub initialize-Stage :
    (s : Startup) (t : Tray) → t.added ≡ false → Stage AfterWindow (initialize s t)
unfolding initialize with_instance with_class
initialize-Stage s t a = checked-Stage AfterWindow s.module_handle t (with_instance s t) a λ _.
    checked-Stage AfterWindow s.register_class t (with_class s t) a λ _.
      checked-Stage AfterWindow s.create_window t (with_window s t) a
        (with_window-Stage s t s.create_window.0 a)
