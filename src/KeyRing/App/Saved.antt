-- ===== src/KeyRing/App/Saved.antt =====
-- old/app.go: what `Save` leaves in the settings and in the menu, and what `DeleteKey` changes.
use omni_sshagent.Base.{
  Bool, Option, none, some, ◌⊎◌, refl, ok, err, is_some, All, ◌≡◌, ◌≢◌, ap, ◌∙◌, arith,
  Option-cases, Result-cases, inl, inr,
}
use omni_sshagent.Base.Text.{Text, codes, equal_iff}
use omni_sshagent.KeyRing.Settings.{add_key_settings}
use omni_sshagent.KeyRing.Settings.Stored.{IsStripped, add_key_settings-IsStripped}
use omni_sshagent.KeyRing.Load.{local_store}
use omni_sshagent.KeyRing.Agent.Adding.{add_key-Keeps}
use omni_sshagent.KeyRing.{PrivateKeyFile, SaveData, System, State, failed, ◌>>=◌}
use omni_sshagent.KeyRing.Settings.Stored.{save-Keeps}
use omni_sshagent.KeyRing.App.{
  App, apply_debug_log_menu_state, set_debug_log_enabled, save_settings, delete_key, add_local_file,
}

module _ (sys : System) where
  set_debug_log_enabled-save_data :
      (b : Bool) (a : App sys)
      → (set_debug_log_enabled sys b a).ring.save_data ≡ record a.ring.save_data { debug_log = b }
  unfolding set_debug_log_enabled apply_debug_log_menu_state
  set_debug_log_enabled-save_data b a = elim (Option-cases a.debug_item) [
    | inl e ↦ rw (e, set_debug_log_enabled, apply_debug_log_menu_state)
    | inr (c, e) ↦ rw (e, set_debug_log_enabled, apply_debug_log_menu_state)
  ]

  -- `Save` leaves in the settings what it was given, except for the keys, which stay as they were;
  -- whether the file is then written or not.
  pub save_settings-save_data :
      (d : SaveData) (a : App sys)
      → (save_settings sys d a).0.ring.save_data ≡ record d { keys = a.ring.save_data.keys }
  unfolding save_settings
  save_settings-save_data d a =
      save-Keeps sys _
      ∙ ap (λ (old : SaveData). record d { keys = old.keys; debug_log = old.debug_log })
          (set_debug_log_enabled-save_data d.debug_log a)

  -- An item of the menu that shows this flag, or none.
  abbrev pub IsShown : Bool → Option Bool → Type 0
  IsShown b item = (item ≡ none) ⊎ (item ≡ some b)

  -- The flag of the log and the one in the settings are this one, and the items that the menu has
  -- show it.
  abbrev pub Agrees : Bool → App sys → Type 0
  Agrees b a =
      (a.log_enabled ≡ b)
      × (a.ring.save_data.debug_log ≡ b)
      × IsShown b a.debug_item
      × IsShown b a.dir_item

  set_debug_log_enabled-Agrees :
      (b : Bool) (a : App sys)
      → is_some a.debug_item ≡ is_some a.dir_item
      → Agrees b (set_debug_log_enabled sys b a)
  unfolding set_debug_log_enabled apply_debug_log_menu_state
  set_debug_log_enabled-Agrees b a h = elim (Option-cases a.debug_item) [
    | inl e ↦
        rw (e, set_debug_log_enabled, apply_debug_log_menu_state)
          (refl, refl, inl e, ground (arith, e, h))
    | inr (c, e) ↦
        rw (e, set_debug_log_enabled, apply_debug_log_menu_state)
          (refl, refl, inr refl, ground (arith, e, h))
  ]

  -- With both menu items or neither, the log, the settings and the menu agree after `Save` on the
  -- flag that it was given, whatever they were before.
  pub save_settings-Agrees :
      (d : SaveData) (a : App sys)
      → is_some a.debug_item ≡ is_some a.dir_item
      → Agrees d.debug_log (save_settings sys d a).0
  unfolding save_settings
  save_settings-Agrees d a h =
      let (e, f, i, j) = set_debug_log_enabled-Agrees d.debug_log a h in
      (e, ap (λ (r : SaveData). r.debug_log) (save-Keeps sys _) ∙ f, i, j)

  -- Unless the dialog is answered with `Yes`, `DeleteKey` fails and changes nothing.
  pub delete_key_unanswered :
      (answer sha256 : Text) (s : State sys)
      → answer ≢ codes "Yes"
      → delete_key sys (ok answer) sha256 s ≡ (s, err (failed (codes "cancel")))
  unfolding delete_key
  delete_key_unanswered answer sha256 s h = ground (arith, equal_iff answer (codes "Yes"))

  -- Behind `AddLocalFile`, whether it succeeds or not, no passphrase stands in the settings, if none
  -- stood there before.
  pub add_local_file-IsStripped :
      (key : PrivateKeyFile) (s : State sys)
      → All IsStripped s.save_data.keys
      → All IsStripped (add_local_file sys key s).0.save_data.keys
  unfolding add_local_file
  add_local_file-IsStripped key s h =
      let named = record key { name = sys.base key.file_path; store_type = local_store } in
      elim (Result-cases (add_key_settings sys named s).1) [
        | inl (id, e) ↦
            rw (e, add_local_file, ◌>>=◌)
              (rw (add_key-Keeps sys id (add_key_settings sys named s).0)
                (add_key_settings-IsStripped sys named s h))
        | inr (x, e) ↦ rw (e, add_local_file, ◌>>=◌) (add_key_settings-IsStripped sys named s h)
      ]
