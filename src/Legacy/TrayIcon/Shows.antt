-- ===== src/Legacy/TrayIcon/Shows.antt =====
-- The menu of Windows that old/pkg/wintray/wintray.go builds refines the menu that `Legacy.Menu`
-- shows, for items of the main menu.
use omni_sshagent.Base.{
  ℕ, true, false, List, [], ◌∷◌, Option, none, some, ◌==◌, ◌≡◌, ◌≢◌, inl, inr, refl, ap, ◌∙◌,
  ==_iff, arith, Bool-cases, Option-cases, All,
}
use omni_sshagent.Base.Text.{Text}
use omni_sshagent.Legacy.Menu.{Item, put, run_commands}
use omni_sshagent.Legacy.TrayIcon.{
  Info, entry, MenuSystem, IsLawful, MenuItem, TrayIcon, run_update, update_menu_item,
  set_or_insert, insert_new, in_menu, parent_id,
}

-- What an item of the main menu with this text shows.
abbrev pub entry_for : Text → Option Item → List Info
entry_for text none = []
entry_for text (some f) = entry text f.disabled f.checked 0 none ∷ []

-- The items as the application makes them: no icon, no parent.
abbrev pub main_item : ℕ → Text → Item → MenuItem
main_item id title f = record {
  id = id;
  icon = 0;
  title = title;
  disabled = f.disabled;
  checked = f.checked;
  parent = none;
}

module _ (sys : MenuSystem) (title text : ℕ → Text) (root : ℕ) where
  -- `createMenu` has made the main menu, there are no submenus, and the main menu has for each
  -- identifier just the one entry that the abstract menu shows, or none.
  pub record Shows (ti : TrayIcon sys) (shown : ℕ → Option Item) : Type 0 where
    pub maps : ti.has_maps ≡ true
    pub main : ti.menus 0 ≡ some root
    pub no_submenus : (id : ℕ) → id ≢ 0 → ti.menus id ≡ none
    pub entries : (id : ℕ) → sys.entries_of root id ti.world ≡ entry_for (text id) (shown id)

  -- The texts convert, and Windows takes every new entry.
  pub record Takes : Type 0 where
    pub converts : (id : ℕ) → sys.menu_text (title id) ≡ some (text id)
    pub inserts : (id : ℕ) (i : Info) (w : sys.World) → (sys.insert_item root id i w).1 ≡ true

  -- The commands of the queue, in order; a command reads the flags when it runs.
  unfoldable pub run_updates : List ℕ → (ℕ → Item) → TrayIcon sys → TrayIcon sys
  run_updates [] items ti = ti
  run_updates (id ∷ queue) items ti =
      run_updates queue items (run_update sys (main_item id (title id) (items id)) ti).0

  entries_after :
      (w v : sys.World) (id : ℕ) (f : Item) (shown : ℕ → Option Item)
      → ((j : ℕ) → sys.entries_of root j w ≡ entry_for (text j) (shown j))
      → sys.entries_of root id v ≡ entry (text id) f.disabled f.checked 0 none ∷ []
      → ((j : ℕ) → j ≢ id → sys.entries_of root j v ≡ sys.entries_of root j w)
      → (j : ℕ) → sys.entries_of root j v ≡ entry_for (text j) (put id (some f) shown j)
  entries_after w v id f shown before self other j = elim (Bool-cases (j == id)) [
    | inl e ↦ rw (e, (==_iff j id).0 e) self
    | inr e ↦ rw (e) (other j (λ q. ground (arith, e, q)) ∙ before j)
  ]

  set_or_insert-Shows :
      (id : ℕ) (f : Item) (ti : TrayIcon sys) (shown : ℕ → Option Item)
      → IsLawful sys
      → Takes
      → id ≢ 0
      → Shows ti shown
      → Shows
          (set_or_insert sys (main_item id (title id) f) (text id) root ti).0
          (put id (some f) shown)
        × ((set_or_insert sys (main_item id (title id) f) (text id) root ti).1 ≡ none)
  unfolding set_or_insert insert_new
  set_or_insert-Shows id f ti shown l k ne r =
      let i : Info = entry (text id) f.disabled f.checked 0 none in
      let w : sys.World = (sys.set_item_info root id i ti.world).0 in
      elim (Option-cases (shown id)) [
        | inl e ↦
            let absent : sys.entries_of root id ti.world ≡ [] =
              r.entries id ∙ ap (entry_for (text id)) e in
            let absent_set : (sys.set_item_info root id i ti.world).1 ≡ false =
              l.set_absent root id i ti.world absent in
            rw (absent_set, r.no_submenus id ne, k.inserts id i w)
              (
                record {
                  maps = r.maps;
                  main = r.main;
                  no_submenus = r.no_submenus;
                  entries =
                      entries_after ti.world (sys.insert_item root id i w).0 id f shown r.entries
                        (l.insert_self root id i w (k.inserts id i w)
                          ∙ ap (λ (es : List Info). i ∷ es)
                              (l.set_failed root id root id i ti.world absent_set ∙ absent))
                        λ j ne'.
                          l.insert_other root id j i w ne'
                          ∙ l.set_failed root id root j i ti.world absent_set;
                },
                refl,
              )
        | inr (old, e) ↦
            let stands : sys.entries_of root id ti.world
                ≡ entry (text id) old.disabled old.checked 0 none ∷ [] =
              r.entries id ∙ ap (entry_for (text id)) e in
            rw (l.set_present root id i _ ti.world stands) (
              record {
                maps = r.maps;
                main = r.main;
                no_submenus = r.no_submenus;
                entries =
                    entries_after ti.world w id f shown r.entries
                      (l.set_self root id i _ ti.world stands)
                      λ j ne'. l.set_other root id j i ti.world ne';
              },
              refl,
            )
      ]

  update_menu_item-Shows :
      (id : ℕ) (f : Item) (ti : TrayIcon sys) (shown : ℕ → Option Item)
      → IsLawful sys
      → Takes
      → id ≢ 0
      → Shows ti shown
      → Shows (update_menu_item sys (main_item id (title id) f) ti).0 (put id (some f) shown)
        × ((update_menu_item sys (main_item id (title id) f) ti).1 ≡ none)
  unfolding update_menu_item in_menu parent_id
  update_menu_item-Shows id f ti shown l k ne r =
      rw (k.converts id, update_menu_item, r.main) (set_or_insert-Shows id f ti shown l k ne r)

  run_update_made :
      (item : MenuItem) (ti : TrayIcon sys)
      → ti.has_maps ≡ true
      → run_update sys item ti
        ≡ update_menu_item sys item
            (record ti { menu_items = put item.id (some item) ti.menu_items })
  unfolding run_update
  run_update_made item ti h = simp h

  -- One command shows its item, and no other entry changes.
  run_update-Shows :
      (id : ℕ) (f : Item) (ti : TrayIcon sys) (shown : ℕ → Option Item)
      → IsLawful sys
      → Takes
      → id ≢ 0
      → Shows ti shown
      → Shows (run_update sys (main_item id (title id) f) ti).0 (put id (some f) shown)
        × ((run_update sys (main_item id (title id) f) ti).1 ≡ none)
  run_update-Shows id f ti shown l k ne r =
      let t' : TrayIcon sys = record ti {
        menu_items = put id (some (main_item id (title id) f)) ti.menu_items;
      } in
      let after = update_menu_item-Shows id f t' shown l k ne (record {
        maps = r.maps;
        main = r.main;
        no_submenus = r.no_submenus;
        entries = r.entries;
      }) in
      rw (run_update_made (main_item id (title id) f) ti r.maps) after

  -- The menu of Windows refines the abstract one: where it has just one entry for each item that the
  -- abstract menu shows, and no other, it does so behind the commands of any queue, if the texts convert, Windows takes every new entry, and no
  -- identifier is 0, the one of the main menu.
  pub run_updates-Shows :
      (queue : List ℕ) (items : ℕ → Item) (ti : TrayIcon sys) (shown : ℕ → Option Item)
      → IsLawful sys
      → Takes
      → All (λ id. id ≢ 0) queue
      → Shows ti shown
      → Shows (run_updates queue items ti) (run_commands queue items shown)
  unfolding run_updates run_commands
  run_updates-Shows [] items ti shown l k h r = r
  run_updates-Shows (id ∷ queue) items ti shown l k h r =
      run_updates-Shows queue items (run_update sys (main_item id (title id) (items id)) ti).0
        (put id (some (items id)) shown) l k h.1
        (run_update-Shows id (items id) ti shown l k h.0 r).0
