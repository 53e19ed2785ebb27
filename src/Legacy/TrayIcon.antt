-- ===== src/Legacy/TrayIcon.antt =====
-- old/pkg/wintray/wintray.go: the menus of the tray icon; Tips has its texts. The menus
-- of Windows are a parameter, with what is relied on of them.
pub mod Shows
pub mod Tips
use omni_sshagent.Base.{
  ℕ, ◌+◌, ◌^◌, ◌%◌, Bool, true, false, not, List, [], ◌∷◌, Option, none, some, ◌==◌, if◌then◌else◌,
  ◌≡◌, ◌≢◌, Result, ok, err,
}
use omni_sshagent.Base.Text.{Text}
use omni_sshagent.Legacy.Menu.{put}

-- `MENUITEMINFO`: what an entry of a menu shows, and its submenu.
pub data Info : Type 0 where
  entry : Text → Bool → Bool → ℕ → Option ℕ → Info
  submenu_only : ℕ → Info
  separator : Info

-- The menus of Windows, by handles, and their entries with an identifier, which may be several, the
-- newest first. A Bool is the result of a call; `menu_text` is that of `StringToBSTR`.
pub record MenuSystem : Type 1 where
  pub World : Type 0
  pub create_popup_menu : World → World × ℕ
  pub create_menu : World → World × ℕ
  pub set_menu_info : ℕ → World → World × Bool
  pub set_item_info : ℕ → ℕ → Info → World → World × Bool
  pub insert_item : ℕ → ℕ → Info → World → World × Bool
  pub menu_text : Text → Option Text
  pub entries_of : ℕ → ℕ → World → List Info

-- A change of an entry leaves the bitmap and the submenu that it does not name.
abbrev pub merge : Info → Info → Info
merge (entry _ _ _ old kept) (entry t d c new none) =
    entry t d c (if new == 0 then old else new) kept
merge (entry _ _ _ old _) (entry t d c new (some s)) =
    entry t d c (if new == 0 then old else new) (some s)
merge (entry t d c icon _) (submenu_only s) = entry t d c icon (some s)
merge old info = info

-- Documented of the calls: an entry is changed exactly if one stands in the menu, which is the one
-- of this identifier where there is just one; an insert adds an entry, whatever stands there; a call
-- that fails changes nothing, and one that succeeds concerns this identifier.
pub record IsLawful (sys : MenuSystem) : Type 0 where
  pub set_present :
      (m id : ℕ) (i old : Info) (w : sys.World)
      → sys.entries_of m id w ≡ old ∷ []
      → (sys.set_item_info m id i w).1 ≡ true
  pub set_absent :
      (m id : ℕ) (i : Info) (w : sys.World)
      → sys.entries_of m id w ≡ []
      → (sys.set_item_info m id i w).1 ≡ false
  pub set_failed :
      (m id m' id' : ℕ) (i : Info) (w : sys.World)
      → (sys.set_item_info m id i w).1 ≡ false
      → sys.entries_of m' id' (sys.set_item_info m id i w).0 ≡ sys.entries_of m' id' w
  pub set_self :
      (m id : ℕ) (i old : Info) (w : sys.World)
      → sys.entries_of m id w ≡ old ∷ []
      → sys.entries_of m id (sys.set_item_info m id i w).0 ≡ merge old i ∷ []
  pub set_other :
      (m id id' : ℕ) (i : Info) (w : sys.World)
      → id' ≢ id
      → sys.entries_of m id' (sys.set_item_info m id i w).0 ≡ sys.entries_of m id' w
  pub insert_self :
      (m id : ℕ) (i : Info) (w : sys.World)
      → (sys.insert_item m id i w).1 ≡ true
      → sys.entries_of m id (sys.insert_item m id i w).0 ≡ i ∷ sys.entries_of m id w
  pub insert_other :
      (m id id' : ℕ) (i : Info) (w : sys.World)
      → id' ≢ id
      → sys.entries_of m id' (sys.insert_item m id i w).0 ≡ sys.entries_of m id' w

-- `MenuItem`, with the identifier of its parent.
pub record MenuItem : Type 0 where
  pub id : ℕ
  pub icon : ℕ
  pub title : Text
  pub disabled : Bool
  pub checked : Bool
  pub parent : Option ℕ

pub data MenuError : Type 0 where
  text_failed create_failed set_failed insert_failed info_failed : MenuError
  -- An assignment to a map that was never made.
  panicked : MenuError

module _ (sys : MenuSystem) where
  -- The maps of `TrayIcon` that `createMenu` makes, and the counter. The locks are left out: only
  -- the thread of the tray runs the commands.
  pub record TrayIcon : Type 0 where
    pub world : sys.World
    pub has_maps : Bool
    pub menu_items : ℕ → Option MenuItem
    pub menus : ℕ → Option ℕ
    pub menu_of : ℕ → Option ℕ
    pub current_menu_id : ℕ

  abbrev pub Method : Type 0
  Method = TrayIcon → TrayIcon × Option MenuError

  unfoldable pub create_menu : Method
  create_menu ti =
      let (w, menu) = sys.create_popup_menu ti.world in
      let (w', done) = sys.set_menu_info menu w in
      if menu == 0 then (record ti { world = w }, some create_failed) else (
        record ti {
          world = w';
          has_maps = true;
          menu_items = λ _. none;
          menus = put 0 (some menu) (λ _. none);
          menu_of = λ _. none;
        },
        if done then none else some info_failed,
      )

  -- A handle that a map does not hold is 0.
  abbrev pub handle_or_zero : Option ℕ → ℕ
  handle_or_zero none = 0
  handle_or_zero (some h) = h

  unfoldable pub parent_id : MenuItem → ℕ
  parent_id item = handle_or_zero item.parent

  -- `updateSubMenuItem` of the parent with this identifier; 0 stands for none.
  unfoldable pub update_sub_menu_item : ℕ → TrayIcon → TrayIcon × Result MenuError ℕ
  update_sub_menu_item id ti =
      let (w, menu) = sys.create_menu ti.world in
      let (w', done) =
        sys.set_item_info (handle_or_zero (ti.menu_of id)) id (submenu_only menu) w in
      if menu == 0
      then (record ti { world = w }, err create_failed)
      else if not done
      then (record ti { world = w' }, err set_failed)
      else (record ti { world = w'; menus = put id (some menu) ti.menus }, ok menu)

  unfoldable pub info_of : MenuItem → Text → Option ℕ → Info
  info_of item text submenu = entry text item.disabled item.checked item.icon submenu

  -- The end of `updateMenuItem`: the item does not stand in the menu yet.
  unfoldable pub insert_new : MenuItem → Text → ℕ → Method
  unfolding info_of
  insert_new item text menu ti =
      let info = info_of item text (ti.menus item.id) in
      let (w, done) = sys.insert_item menu item.id info ti.world in
      if done
      then (record ti { world = w; menu_of = put item.id (some menu) ti.menu_of }, none)
      else (record ti { world = w }, some insert_failed)

  set_or_insert : MenuItem → Text → ℕ → Method
  unfolding insert_new info_of
  set_or_insert item text menu ti =
      let (w, done) = sys.set_item_info menu item.id (info_of item text none) ti.world in
      if done
      then (record ti { world = w }, none)
      else insert_new item text menu (record ti { world = w })

  insert_below : MenuItem → Text → TrayIcon × Result MenuError ℕ → TrayIcon × Option MenuError
  unfolding insert_new parent_id
  insert_below item text (ti, err e) = (ti, some e)
  insert_below item text (ti, ok menu) =
      insert_new item text menu (record ti { menus = put (parent_id item) (some menu) ti.menus })

  in_menu : MenuItem → Text → Option ℕ → Method
  unfolding set_or_insert insert_below update_sub_menu_item parent_id
  in_menu item text (some menu) ti = set_or_insert item text menu ti
  in_menu item text none ti = insert_below item text (update_sub_menu_item (parent_id item) ti)

  unfoldable pub update_menu_item : MenuItem → Method
  unfolding in_menu parent_id
  update_menu_item item ti = elim (sys.menu_text item.title) [
    | none ↦ (ti, some text_failed)
    | some text ↦ in_menu item text (ti.menus (parent_id item)) ti
  ]

  -- The command that `update` enqueues.
  unfoldable pub run_update : MenuItem → Method
  unfolding update_menu_item
  run_update item ti =
      if not ti.has_maps
      then (ti, some panicked)
      else update_menu_item item (record ti { menu_items = put item.id (some item) ti.menu_items })

  -- `newMenuItem` of a title and a parent; the counter is a `uint32`.
  unfoldable pub new_menu_item : Text → Option ℕ → TrayIcon → TrayIcon × MenuItem
  new_menu_item title parent ti =
      let id = (ti.current_menu_id + 1) % 2 ^ 32 in
      (
        record ti { current_menu_id = id },
        record {
          id = id;
          icon = 0;
          title = title;
          disabled = false;
          checked = false;
          parent = parent;
        },
      )

  unfoldable pub insert_separator : ℕ → Method
  insert_separator parent ti =
      let menu = handle_or_zero (ti.menus parent) in
      let id = (ti.current_menu_id + 1) % 2 ^ 32 in
      let (w, done) = sys.insert_item menu id separator ti.world in
      if menu == 0 then (ti, none) else (
        record ti { world = w; current_menu_id = id },
        if done then none else some insert_failed,
      )

  -- `menuSelected`: whether the click reaches a goroutine, which must be waiting for it. An unknown
  -- identifier is an error.
  unfoldable pub menu_selected : ℕ → (MenuItem → Bool) → TrayIcon → Option Bool
  menu_selected id waits ti = elim (ti.menu_items id) [
    | none ↦ none
    | some item ↦ some (waits item)
  ]
