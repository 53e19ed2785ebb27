-- ===== src/Tray/Dialog/Windows/Released.antt =====
-- The windows that the dialogs of internal/tray make and destroy.
use omni_sshagent.Base.{
  ℕ, Bool, true, false, not, ◌&&◌, List, [], ◌∷◌, ◌++◌, Option, none, some, is_some, ◌≡◌,
  if◌then◌else◌, refl, ap, ◌∙◌, arith, Bool-cases, Option-cases, inl, inr,
}
use mathlib.Core.List.{append-nil}
use omni_sshagent.Base.Text.{Text, codes}
use omni_sshagent.Tray.Dialog.Windows.{
  Control, Screen, Act, popup_made, popup_destroyed, owner_enabled, error_shown, brought_to_front,
  keys_size, password_size, settings_size, create_popup, create_child, create_controls,
  create_dialog, ModalEnd, window_gone, quit_received, message_failed, run_modal, show_dialog,
  show_password, settings_controls, keys_controls, password_controls, open_settings, open_keys,
  open_password,
}

abbrev pub made : List Act → List ℕ
made [] = []
made (popup_made w ∷ acts) = w ∷ made acts
made (_ ∷ acts) = made acts

abbrev pub destroyed : List Act → List ℕ
destroyed [] = []
destroyed (popup_destroyed w ∷ acts) = w ∷ destroyed acts
destroyed (_ ∷ acts) = destroyed acts

-- The owner's state behind the acts: enabled, if it was so before and they leave it so.
abbrev pub owner_after : Bool → List Act → Bool
owner_after b [] = b
owner_after b (owner_enabled c ∷ acts) = owner_after c acts
owner_after b (_ ∷ acts) = owner_after b acts

made-append : (a b : List Act) → made (a ++ b) ≡ made a ++ made b
made-append [] b = refl
made-append (popup_made w ∷ a) b = ap (λ l. w ∷ l) (made-append a b)
made-append (_ ∷ a) b = made-append a b

destroyed-append : (a b : List Act) → destroyed (a ++ b) ≡ destroyed a ++ destroyed b
destroyed-append [] b = refl
destroyed-append (popup_destroyed w ∷ a) b = ap (λ l. w ∷ l) (destroyed-append a b)
destroyed-append (_ ∷ a) b = destroyed-append a b

owner_after-append :
    (c : Bool) (a b : List Act) → owner_after c (a ++ b) ≡ owner_after (owner_after c a) b
owner_after-append c [] b = refl
owner_after-append c (owner_enabled d ∷ a) b = owner_after-append d a b
owner_after-append c (_ ∷ a) b = owner_after-append c a b

-- The acts of a dialog give back what they have made, unless `GetMessageW` fails, and leave the
-- owner enabled.
abbrev pub Releases : ModalEnd → List Act → Type 0
Releases message_failed acts = owner_after true acts ≡ true
Releases window_gone acts = (destroyed acts ≡ made acts) × (owner_after true acts ≡ true)
Releases quit_received acts = (destroyed acts ≡ made acts) × (owner_after true acts ≡ true)

-- Controls make and destroy no window.
abbrev IsPlain : List Act → Type 0
IsPlain acts = (made acts ≡ []) × (destroyed acts ≡ []) × ((b : Bool) → owner_after b acts ≡ b)

create_controls-IsPlain : (s : Screen) (cs : List Control) → IsPlain (create_controls s cs).0
unfolding create_controls
create_controls-IsPlain s [] = (refl, refl, λ b. refl)
create_controls-IsPlain s (c ∷ cs) = elim (Bool-cases (create_child s c)) [
  | inl e ↦ rw (e) (create_controls-IsPlain s cs)
  | inr e ↦ rw (e) (refl, refl, λ b. refl)
]

-- A dialog that is made, or whose window is gone again.
abbrev IsCreated : List Act × Option ℕ → Type 0
IsCreated (acts, none) = (destroyed acts ≡ made acts) × ((b : Bool) → owner_after b acts ≡ b)
IsCreated (acts, some w) =
    (made acts ≡ w ∷ []) × (destroyed acts ≡ []) × ((b : Bool) → owner_after b acts ≡ b)

with_window-IsCreated :
    (w : ℕ) (loaded : Bool) (controls : List Act × Bool)
    → IsPlain controls.0
    → IsCreated (
        if controls.1 && loaded
        then (popup_made w ∷ controls.0, some w)
        else (popup_made w ∷ (controls.0 ++ popup_destroyed w ∷ []), none))
with_window-IsCreated w loaded (acts, done) (m, d, o) = elim (Bool-cases (done && loaded)) [
  | inl e ↦ rw (e) (ap (λ l. w ∷ l) m, d, o)
  | inr e ↦ rw (e) (
    destroyed-append acts (popup_destroyed w ∷ [])
        ∙ rw (d, made-append acts (popup_destroyed w ∷ []), m) refl,
    λ b. owner_after-append b acts (popup_destroyed w ∷ []) ∙ o b,
  )
]

create_dialog-IsCreated :
    (s : Screen) (class title : Text) (size : ℕ × ℕ) (controls : List Control) (loaded : Bool)
    → IsCreated (create_dialog s class title size controls loaded)
unfolding create_dialog
create_dialog-IsCreated s class title size controls loaded =
    elim (Option-cases (create_popup s class title size)) [
      | inl e ↦ rw (e, create_dialog) (refl, λ b. refl)
      | inr (w, e) ↦
          rw (e, create_dialog)
            (with_window-IsCreated w loaded (create_controls s controls)
              (create_controls-IsPlain s controls))
    ]

-- Behind the loop the owner is enabled again, and no window was made.
run_modal_quiet :
    (owner w : ℕ) (end' : ModalEnd)
    → (owner_after true (run_modal owner w end') ≡ true) × (made (run_modal owner w end') ≡ [])
unfolding run_modal
run_modal_quiet owner w window_gone = ground arith
run_modal_quiet owner w quit_received = ground arith
run_modal_quiet owner w message_failed = ground arith

gone-Releases :
    (owner w : ℕ) (end' : ModalEnd) (acts : List Act)
    → made acts ≡ w ∷ []
    → destroyed acts ≡ []
    → destroyed (run_modal owner w end') ≡ w ∷ []
    → destroyed (acts ++ run_modal owner w end') ≡ made (acts ++ run_modal owner w end')
gone-Releases owner w end' acts m d g =
    let loop : List Act = run_modal owner w end' in
    destroyed-append acts loop
    ∙ rw (d, g, made-append acts loop, m, (run_modal_quiet owner w end').1) refl

enabled-Releases :
    (owner w : ℕ) (end' : ModalEnd) (acts : List Act)
    → ((b : Bool) → owner_after b acts ≡ b)
    → owner_after true (acts ++ run_modal owner w end') ≡ true
enabled-Releases owner w end' acts o =
    owner_after-append true acts (run_modal owner w end')
    ∙ rw (o true) (run_modal_quiet owner w end').0

modal-Releases :
    (owner w : ℕ) (end' : ModalEnd) (acts : List Act)
    → made acts ≡ w ∷ []
    → destroyed acts ≡ []
    → ((b : Bool) → owner_after b acts ≡ b)
    → Releases end' (acts ++ run_modal owner w end')
unfolding run_modal
modal-Releases owner w window_gone acts m d o = (
  gone-Releases owner w window_gone acts m d (ground arith),
  enabled-Releases owner w window_gone acts o,
)
modal-Releases owner w quit_received acts m d o = (
  gone-Releases owner w quit_received acts m d (ground arith),
  enabled-Releases owner w quit_received acts o,
)
modal-Releases owner w message_failed acts m d o = enabled-Releases owner w message_failed acts o

failed-Releases :
    (end' : ModalEnd) (acts : List Act)
    → destroyed acts ≡ made acts
    → ((b : Bool) → owner_after b acts ≡ b)
    → Releases end' acts
failed-Releases window_gone acts d o = (d, o true)
failed-Releases quit_received acts d o = (d, o true)
failed-Releases message_failed acts d o = o true

show_dialog-Releases :
    (owner : ℕ) (end' : ModalEnd) (created : List Act × Option ℕ)
    → IsCreated created
    → Releases end' (show_dialog owner end' created)
unfolding show_dialog
show_dialog-Releases owner end' (acts, some w) (m, d, o) = modal-Releases owner w end' acts m d o
show_dialog-Releases owner end' (acts, none) (d, o) =
    failed-Releases end' (acts ++ error_shown ∷ [])
      (destroyed-append acts (error_shown ∷ []) ∙ rw (made-append acts (error_shown ∷ []), d) refl)
      (λ b. owner_after-append b acts (error_shown ∷ []) ∙ o b)

show_password-Releases :
    (owner : ℕ) (end' : ModalEnd) (created : List Act × Option ℕ)
    → IsCreated created
    → Releases end' (show_password owner end' created)
unfolding show_password
show_password-Releases owner end' ([], some w) (m, d, o) = modal-Releases owner w end' [] m d o
show_password-Releases owner end' (a ∷ acts, some w) (m, d, o) =
    modal-Releases owner w end' (a ∷ acts) m d o
show_password-Releases owner end' ([], none) c =
    failed-Releases end' (error_shown ∷ []) refl (λ b. refl)
show_password-Releases owner end' (a ∷ acts, none) (d, o) = failed-Releases end' (a ∷ acts) d o

shown-IsCreated :
    (created : List Act × Option ℕ) (b : Bool)
    → IsCreated created
    → IsCreated (created.0 ++ (if b then error_shown ∷ [] else []), created.1)
shown-IsCreated (acts, none) false c = rw (append-nil acts) c
shown-IsCreated (acts, some w) false c = rw (append-nil acts) c
shown-IsCreated (acts, none) true (d, o) = (
  destroyed-append acts (error_shown ∷ []) ∙ rw (made-append acts (error_shown ∷ []), d) refl,
  λ b. owner_after-append b acts (error_shown ∷ []) ∙ o b,
)
shown-IsCreated (acts, some w) true (m, d, o) = (
  made-append acts (error_shown ∷ []) ∙ rw (m) refl,
  destroyed-append acts (error_shown ∷ []) ∙ rw (d) refl,
  λ b. owner_after-append b acts (error_shown ∷ []) ∙ o b,
)

guarded-Releases :
    (is_open usable : Bool) (end' : ModalEnd) (acts : List Act)
    → Releases end' acts
    → Releases end'
        (if is_open then brought_to_front ∷ [] else if not usable then error_shown ∷ [] else acts)
guarded-Releases true usable end' acts h =
    failed-Releases end' (brought_to_front ∷ []) refl (λ b. refl)
guarded-Releases false false end' acts h = failed-Releases end' (error_shown ∷ []) refl (λ b. refl)
guarded-Releases false true end' acts h = h

-- Each of the three dialogs, whatever fails while it is made and however its loop ends: it destroys
-- just the windows that it has made, unless `GetMessageW` fails, and leaves its owner enabled.
pub dialogs-Releases :
    (s : Screen) (owner : ℕ) (is_open usable loaded : Bool) (name : Text) (end' : ModalEnd)
    → Releases end' (open_settings s owner is_open usable loaded end')
      × Releases end' (open_keys s owner is_open usable loaded end')
      × Releases end' (open_password s owner name end')
unfolding open_settings open_keys open_password
dialogs-Releases s owner is_open usable loaded name end' =
    let settings : Text = codes "OmniSSHAgentSettingsWindow" in
    let keys : Text = codes "OmniSSHAgentKeysWindow" in
    let password : Text = codes "OmniSSHAgentPasswordWindow" in
    let listed : List Act × Option ℕ =
      create_dialog s keys (codes "Manage keys") (keys_size s.dpi) (keys_controls s.dpi) true in
    (
      guarded-Releases is_open usable end' _ (
          show_dialog-Releases owner end' _ (
            create_dialog-IsCreated s settings (codes "OmniSSHAgent Settings") (settings_size s.dpi)
              (settings_controls s.dpi) loaded)),
      guarded-Releases is_open usable end' _ (
          show_dialog-Releases owner end' _ (
            shown-IsCreated listed (is_some listed.1 && not loaded) (
              create_dialog-IsCreated s keys (codes "Manage keys") (keys_size s.dpi)
                (keys_controls s.dpi) true))),
      show_password-Releases owner end' _ (
          create_dialog-IsCreated s password (codes "Passphrase") (password_size s.dpi)
            (password_controls s.dpi name) true),
    )
