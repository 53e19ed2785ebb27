-- ===== src/Tray/Password.antt =====
-- internal/tray/keys_windows.go: `promptPassphrase` and its window, where the window can be created.
-- `encode` stands for the UTF-8 of a text.
use omni_sshagent.Base.{
  Bool, true, false, not, List, [], ◌∷◌, ◌++◌, Option, none, some, if◌then◌else◌, ◌≡◌, refl, ap,
  ◌∙◌, map,
}
use omni_sshagent.Base.Text.{Text}
use omni_sshagent.Files.{Bytes}

-- `passwordDialog`, with the text of its edit control and whether its window exists.
pub record Password : Type 0 where
  pub edit : Text
  pub ok : Bool
  pub secret : Bytes
  pub is_open : Bool

abbrev pub new_password : Password
new_password = record { edit = []; ok = false; secret = []; is_open = true }

-- The user changes the text, or a message comes: the buttons, `wmClose`, or `WM_QUIT`, on which
-- `runModal` destroys the window itself.
pub data Input : Type 0 where
  edited : Text → Input
  ok_clicked cancel_clicked wm_close wm_quit : Input

module _ (encode : Text → Bytes) where
  unfoldable pub accept : Password → Password
  accept d = record d { secret = encode d.edit; ok = true; edit = []; is_open = false }

  unfoldable pub cancel : Password → Password
  cancel d = record d { ok = false; edit = []; is_open = false }

  unfoldable pub handle_input : Input → Password → Password
  unfolding accept cancel
  handle_input (edited text) d = record d { edit = text }
  handle_input ok_clicked d = accept d
  handle_input cancel_clicked d = cancel d
  handle_input wm_close d = cancel d
  handle_input wm_quit d = record d { is_open = false }

  -- `runModal`, until the window is gone.
  unfoldable pub run_modal : List Input → Password → Password
  unfolding handle_input
  run_modal [] d = d
  run_modal (i ∷ inputs) d =
      let rest = run_modal inputs (handle_input i d) in if d.is_open then rest else d

  -- What `promptPassphrase` returns.
  unfoldable pub prompt_passphrase : List Input → Option Bytes
  unfolding run_modal
  prompt_passphrase inputs =
      let d = run_modal inputs new_password in if not d.ok then none else some (d.secret)

  -- The text in the edit control behind some changes.
  last_text : Text → List Text → Text
  last_text text [] = text
  last_text text (t ∷ texts) = last_text t texts

  unfoldable pub final_text : List Text → Text
  unfolding last_text
  final_text texts = last_text [] texts

  closed_stays : (inputs : List Input) (d : Password) → d.is_open ≡ false → run_modal inputs d ≡ d
  unfolding run_modal
  closed_stays [] d h = refl
  closed_stays (i ∷ inputs) d h = rw (h)

  -- Any input that is not a change of the text ends the dialog.
  abbrev pub outcome : Input → Text → Password → Password
  outcome (edited text) shown d = d
  outcome ok_clicked shown d = record {
    edit = [];
    ok = true;
    secret = encode shown;
    is_open = false;
  }
  outcome cancel_clicked shown d = record { edit = []; ok = false; secret = []; is_open = false }
  outcome wm_close shown d = record { edit = []; ok = false; secret = []; is_open = false }
  outcome wm_quit shown d = record { edit = shown; ok = false; secret = []; is_open = false }

  abbrev pub IsEnd : Input → Type 0
  IsEnd (edited text) = ⊥
  IsEnd ok_clicked = Unit
  IsEnd cancel_clicked = Unit
  IsEnd wm_close = Unit
  IsEnd wm_quit = Unit

  run_modal-outcome :
      (texts : List Text) (text : Text) (e : Input) (rest : List Input)
      → IsEnd e
      → run_modal (map edited texts ++ e ∷ rest) (record new_password { edit = text })
        ≡ outcome e (last_text text texts) new_password
  unfolding run_modal handle_input accept cancel last_text
  run_modal-outcome [] text (edited t) rest h = absurd h
  run_modal-outcome [] text ok_clicked rest h = closed_stays rest _ refl
  run_modal-outcome [] text cancel_clicked rest h = closed_stays rest _ refl
  run_modal-outcome [] text wm_close rest h = closed_stays rest _ refl
  run_modal-outcome [] text wm_quit rest h = closed_stays rest _ refl
  run_modal-outcome (t ∷ texts) text e rest h = run_modal-outcome texts t e rest h

  abbrev pub is_ok : Input → Bool
  is_ok ok_clicked = true
  is_ok (edited text) = false
  is_ok cancel_clicked = false
  is_ok wm_close = false
  is_ok wm_quit = false

  -- The passphrase is the text that stood in the control when OK was clicked; if the dialog ends in
  -- any other way, there is none. What comes behind the end has no effect.
  pub prompt_passphrase-final_text :
      (texts : List Text) (e : Input) (rest : List Input)
      → IsEnd e
      → prompt_passphrase (map edited texts ++ e ∷ rest)
        ≡ (if is_ok e then some (encode (final_text texts)) else none)
  unfolding prompt_passphrase final_text
  prompt_passphrase-final_text texts e rest h =
      ap (λ (d : Password). if not d.ok then none else some (d.secret))
        (run_modal-outcome texts [] e rest h)
      ∙ by_end e h
    where
      by_end :
          (e : Input)
          → IsEnd e
          → (if not (outcome e (last_text [] texts) new_password).ok
              then none
              else some ((outcome e (last_text [] texts) new_password).secret))
            ≡ (if is_ok e then some (encode (final_text texts)) else none)
      by_end (edited t) h = absurd h
      by_end ok_clicked h = refl
      by_end cancel_clicked h = refl
      by_end wm_close h = refl
      by_end wm_quit h = refl
