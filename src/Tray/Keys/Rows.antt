-- ===== src/Tray/Keys/Rows.antt =====
-- internal/tray/keys_windows.go: the rows of the list box stand for the keys of the dialog.
use omni_sshagent.Base.{
  ℕ, zero, suc, List, [], ◌∷◌, ◌++◌, Option, none, some, get_elem?, map, pos, negsuc, ◌≡◌, refl, ap,
  ◌∙◌, arith, Result-cases, inl, inr, All, sym, false,
}
use omni_sshagent.Base.Text.{Text, contains}
use omni_sshagent.Tray.Keys.{
  added, KeysError, ppk_unsupported, passphrase_required, dialog_canceled, no_selection, other,
  Outside, Dialog, Message, add_clicked, cancelled, wm_close, wm_destroy, remove_clicked,
  format_listed_key, refresh, settle, add_picked, add_key, remove_at, remove_key, window_proc,
  error_of,
}

-- A label that can be added.
abbrev pub IsText : Text → Type 0
IsText label = contains label 0 ≡ false

added-All : (labels : List Text) → All IsText labels → added labels ≡ labels
unfolding added
added-All [] h = refl
added-All (label ∷ labels) h = rw (h.0, added-All labels h.1)

module _ (out : Outside) where
  -- The rows are the labels of the keys, without those that cannot be added.
  abbrev pub ShowsKeys : Dialog out → Type 0
  ShowsKeys d = added (map (format_listed_key out) d.keys) ≡ d.rows

  refresh-ShowsKeys : (d : Dialog out) → ShowsKeys d → ShowsKeys (refresh out d)
  unfolding refresh
  refresh-ShowsKeys d h = elim (Result-cases (out.list d.world).1) [
    | inl (keys, e) ↦ rw (e, refresh)
    | inr (x, e) ↦ rw (e, refresh) h
  ]

  settle-ShowsKeys :
      (e : Option KeysError) (d : Dialog out) → ShowsKeys d → ShowsKeys (settle out e d)
  unfolding settle
  settle-ShowsKeys none d h = refresh-ShowsKeys d h
  settle-ShowsKeys (some ppk_unsupported) d h = h
  settle-ShowsKeys (some passphrase_required) d h = h
  settle-ShowsKeys (some dialog_canceled) d h = h
  settle-ShowsKeys (some no_selection) d h = h
  settle-ShowsKeys (some (other e)) d h = h

  add_picked-ShowsKeys :
      (p : out.World × Option Text) (d : Dialog out) → ShowsKeys d → ShowsKeys (add_picked out p d)
  unfolding add_picked
  add_picked-ShowsKeys (w, none) d h = h
  add_picked-ShowsKeys (w, some path) d h = settle-ShowsKeys _ _ h

  remove_at-ShowsKeys :
      (k : Option (Option out.SshKey)) (d : Dialog out)
      → ShowsKeys d
      → ShowsKeys (remove_at out k d)
  unfolding remove_at
  remove_at-ShowsKeys none d h = h
  remove_at-ShowsKeys (some key) d h = settle-ShowsKeys _ _ h

  -- If the rows of the list box are the labels of the keys of the dialog in their order, without
  -- those that hold a NUL, then they are so behind every message, also where the agent refuses.
  pub window_proc-ShowsKeys :
      (m : Message out) (d : Dialog out) → ShowsKeys d → ShowsKeys (window_proc out m d)
  unfolding window_proc add_key remove_key
  window_proc-ShowsKeys add_clicked d h = add_picked-ShowsKeys (out.pick_open_file d.world) d h
  window_proc-ShowsKeys (remove_clicked (pos i)) d h = remove_at-ShowsKeys (get_elem? d.keys i) d h
  window_proc-ShowsKeys (remove_clicked (negsuc n)) d h = h
  window_proc-ShowsKeys cancelled d h = h
  window_proc-ShowsKeys wm_close d h = h
  window_proc-ShowsKeys wm_destroy d h = h

  get_elem?-map :
      (keys : List (Option out.SshKey)) (i : ℕ) (row : Text)
      → get_elem? (map (format_listed_key out) keys) i ≡ some row
      → (k : Option out.SshKey) × (get_elem? keys i ≡ some k) × (format_listed_key out k ≡ row)
  get_elem?-map [] i row h = ground (arith, h)
  get_elem?-map (k ∷ keys) zero row h = (k, refl, ground (arith, h))
  get_elem?-map (k ∷ keys) (suc i) row h = get_elem?-map keys i row h

  -- The dialog behind what the agent has answered: it shows the error, or reads the rows anew.
  abbrev pub answered : out.World × Option Text → Dialog out → Dialog out
  answered (w, none) d = refresh out (record d { world = w })
  answered (w, some e) d = record d { world = w; shown = d.shown ++ other e ∷ [] }

  remove_at-answered :
      (k : Option out.SshKey) (d : Dialog out)
      → remove_at out (some k) d ≡ answered (out.remove k d.world) d
  unfolding remove_at settle
  remove_at-answered k d = go (out.remove k d.world)
    where
      go :
          (r : out.World × Option Text)
          → settle out (error_of out r.1) (record d { world = r.0 }) ≡ answered r d
      go (w, none) = refl
      go (w, some e) = refl

  -- If the rows show the keys and no label holds a NUL, then removing the selected row asks the
  -- agent once, to remove the key of the dialog that stands at the place of this row and has its
  -- label; an error is shown, and otherwise the rows are read anew.
  pub remove_selected :
      (i : ℕ) (row : Text) (d : Dialog out)
      → ShowsKeys d
      → All IsText (map (format_listed_key out) d.keys)
      → get_elem? d.rows i ≡ some row
      → (k : Option out.SshKey) × (get_elem? d.keys i ≡ some k)
        × (format_listed_key out k ≡ row)
        × (remove_key out (pos i) d ≡ answered (out.remove k d.world) d)
  unfolding remove_key remove_at
  remove_selected i row d h texts e =
      let rows = sym (added-All (map (format_listed_key out) d.keys) texts) ∙ h in
      let (k, found, shown) =
        get_elem?-map d.keys i row (ap (λ (r : List Text). get_elem? r i) rows ∙ e) in
      (
        k,
        found,
        shown,
        ap (λ (o : Option (Option out.SshKey)). remove_at out o d) found ∙ remove_at-answered k d,
      )
