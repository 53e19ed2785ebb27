-- ===== src/Tests/Former.antt =====
-- The window, the menu and the end of the former program.
use omni_sshagent.Base.{
  List, ℕ, zero, suc, Bool, true, false, [], ◌∷◌, none, some, ok, ◌==◌, if◌then◌else◌, ◌≡◌, ◌≢◌,
  inr, refl, ap, ◌∙◌, arith, length, take,
}
use omni_sshagent.Base.Text.{Text, codes, equal, has_prefix}
use omni_sshagent.Files.{Bytes}
use omni_sshagent.Interfaces.{end_of_file}
use omni_sshagent.Pageant.Request.{
  System, CopyData, View, viewed, copy_data_id, mapping_name, request_of, big_endian, handle,
  answer, response_of, copy_onto, invalid_response,
}
use omni_sshagent.Pageant.Request
use omni_sshagent.Legacy.Pageant.{App, handled, handle_copy_message}
use omni_sshagent.Legacy.Pageant.Same.{IsMemory, former_view, handle_copy_message-handle}
use omni_sshagent.Legacy.Pageant.Running.{
  Client, Reaches, send_to_former, app_answer, already_running, check_already_running,
  check_already_running-former,
}
use omni_sshagent.Legacy.Menu.{Item, put, run_commands}
use omni_sshagent.Legacy.TrayIcon.{Info, merge, MenuSystem, IsLawful, TrayIcon}
use omni_sshagent.Legacy.TrayIcon.Shows.{Shows, run_updates, run_updates-Shows}
use omni_sshagent.Legacy.Shutdown.{
  Run, start, starting, windowed, ready, lost, waiting, returned, not_called, has_window, ring_made,
  cancel_made, agent_started, window_made, on_ready, shutdown_called, Orderly, Step, orderly, Reach,
  here, next,
}
use omni_sshagent.Legacy.Shutdown.Ends.{shutdown_ends, shutdown_hangs}

-- Bytes with zeros behind them.
abbrev memory : Bytes → ℕ → Bytes
memory bytes zero = []
memory [] (suc n) = 0 ∷ memory [] n
memory (b ∷ bytes) (suc n) = b ∷ memory bytes n

length-memory : (bytes : Bytes) (n : ℕ) → length (memory bytes n) ≡ n
length-memory bytes zero = refl
length-memory [] (suc n) = ap suc (length-memory [] n)
length-memory (b ∷ bytes) (suc n) = ap suc (length-memory bytes n)

take-memory : (bytes : Bytes) (n : ℕ) → take n (memory bytes (suc n)) ≡ memory bytes n
take-memory [] zero = refl
take-memory (b ∷ bytes) zero = refl
take-memory [] (suc n) = ap (λ l. 0 ∷ l) (take-memory [] n)
take-memory (b ∷ bytes) (suc n) = ap (λ l. b ∷ l) (take-memory bytes n)

abbrev map_name : Text
map_name = codes "PageantRequest00000001"

abbrev system : Bytes → System
system response = record {
  memory_at = λ pointer size. memory map_name size;
  text_of = λ b. b;
  utf16_error = λ t. none;
  serve_agent = λ b. (end_of_file, response);
}

system-IsMemory : IsMemory (system (0 ∷ 0 ∷ 0 ∷ 2 ∷ 12 ∷ 0 ∷ []))
system-IsMemory pointer n = (length-memory map_name (suc n), take-memory map_name n)

abbrev app : App
app = record { name = codes "OmniSSHAgent"; has_check = true }

abbrev message : CopyData
message = record { identifier = copy_data_id; size = 23; pointer = 1 }

-- A request of one byte in a mapping of eight.
abbrev mapped : Bytes
mapped = 0 ∷ 0 ∷ 0 ∷ 1 ∷ 11 ∷ 7 ∷ 7 ∷ 7 ∷ []

mapping_name_run : mapping_name (system (0 ∷ 0 ∷ 0 ∷ 2 ∷ 12 ∷ 0 ∷ [])) message ≡ ok map_name
unfolding mapping_name has_prefix
mapping_name_run = refl

request_of_run : request_of mapped ≡ ok (0 ∷ 0 ∷ 0 ∷ 1 ∷ 11 ∷ [])
unfolding request_of big_endian
request_of_run = refl

handle_run :
    handle (system (0 ∷ 0 ∷ 0 ∷ 2 ∷ 12 ∷ 0 ∷ [])) (λ n. viewed mapped) (some message)
    ≡ (viewed (0 ∷ 0 ∷ 0 ∷ 2 ∷ 12 ∷ 0 ∷ 7 ∷ 7 ∷ []), none)
unfolding handle mapping_name has_prefix Request.handle_mapped request_of big_endian answer
    response_of copy_onto
handle_run = refl

handle_copy_message-handle_example :
    (bytes : Bytes) × (viewed (0 ∷ 0 ∷ 0 ∷ 2 ∷ 12 ∷ 0 ∷ 7 ∷ 7 ∷ []) ≡ viewed bytes)
    × (handle_copy_message
          (system (0 ∷ 0 ∷ 0 ∷ 2 ∷ 12 ∷ 0 ∷ []))
          app
          (λ n. former_view (viewed mapped))
          message
        ≡ handled false bytes none)
handle_copy_message-handle_example =
    handle_copy_message-handle (system (0 ∷ 0 ∷ 0 ∷ 2 ∷ 12 ∷ 0 ∷ [])) app (λ n. viewed mapped)
      message map_name mapped (0 ∷ 0 ∷ 0 ∷ 1 ∷ 11 ∷ [])
      (viewed (0 ∷ 0 ∷ 0 ∷ 2 ∷ 12 ∷ 0 ∷ 7 ∷ 7 ∷ [])) system-IsMemory mapping_name_run refl
      request_of_run refl handle_run

abbrev client : Client
client = record {
  window_found = true;
  create_mapping = none;
  map_view = none;
  map_name = map_name;
  pointer = 1;
  fresh = memory [] 8192;
  send_message = λ d view. send_to_former (system []) app map_name d view;
}

client-Reaches : Reaches (system []) app client
client-Reaches = record {
  found = refl;
  created = refl;
  mapped = refl;
  name_size = omega arith;
  name_read = refl;
  name_encodes = refl;
  view_size = rw (length-memory [] 8192) (omega arith);
  sent = λ d view. refl;
}

check_already_running-former_example :
    (already_running client ≡ ok (app_answer app))
    × (check_already_running (codes "OmniSSHAgent") (already_running client)
        ≡ equal (codes "OmniSSHAgent") (codes "OmniSSHAgent"))
check_already_running-former_example =
    check_already_running-former (system []) app client (codes "OmniSSHAgent") client-Reaches
      (omega arith)

-- Menus as a function, in which every call succeeds that can.
abbrev Entries : Type 0
Entries = ℕ → ℕ → List Info

abbrev placed : ℕ → ℕ → List Info → Entries → Entries
placed m id is w m' id' = if m' == m then (if id' == id then is else w m' id') else w m' id'

abbrev changed : ℕ → ℕ → Info → List Info → Entries → Entries × Bool
changed m id i [] w = (w, false)
changed m id i (old ∷ rest) w = (placed m id (merge old i ∷ rest) w, true)

abbrev menus : MenuSystem
menus = record {
  World = Entries;
  create_popup_menu = λ w. (w, 1);
  create_menu = λ w. (w, 2);
  set_menu_info = λ m w. (w, true);
  set_item_info = λ m id i w. changed m id i (w m id) w;
  insert_item = λ m id i w. (placed m id (i ∷ w m id) w, true);
  menu_text = λ t. some t;
  entries_of = λ m id w. w m id;
}

changed_present :
    (m id : ℕ) (i old : Info) (w : Entries)
    → w m id ≡ old ∷ []
    → (changed m id i (w m id) w).1 ≡ true
changed_present m id i old w h = rw h refl

changed_absent :
    (m id : ℕ) (i : Info) (w : Entries) → w m id ≡ [] → (changed m id i (w m id) w).1 ≡ false
changed_absent m id i w h = rw h refl

changed_failed :
    (m id m' id' : ℕ) (i : Info) (w : Entries) (o : List Info)
    → (changed m id i o w).1 ≡ false
    → (changed m id i o w).0 m' id' ≡ w m' id'
changed_failed m id m' id' i w [] h = refl
changed_failed m id m' id' i w (old ∷ rest) h = ground (arith, h)

placed_self : (m id : ℕ) (is : List Info) (w : Entries) → placed m id is w m id ≡ is
placed_self m id is w = ground arith

placed_other :
    (m id id' : ℕ) (is : List Info) (w : Entries) → id' ≢ id → placed m id is w m id' ≡ w m id'
placed_other m id id' is w h = ground (arith, h)

changed_self :
    (m id : ℕ) (i old : Info) (w : Entries)
    → w m id ≡ old ∷ []
    → (changed m id i (w m id) w).0 m id ≡ merge old i ∷ []
changed_self m id i old w h =
    ap (λ (o : List Info). (changed m id i o w).0 m id) h ∙ placed_self m id (merge old i ∷ []) w

changed_other :
    (m id id' : ℕ) (i : Info) (w : Entries) (o : List Info)
    → id' ≢ id
    → (changed m id i o w).0 m id' ≡ w m id'
changed_other m id id' i w [] h = refl
changed_other m id id' i w (old ∷ rest) h = placed_other m id id' (merge old i ∷ rest) w h

menus-IsLawful : IsLawful menus
menus-IsLawful = record {
  set_present = λ m id i old w h. changed_present m id i old w h;
  set_absent = λ m id i w h. changed_absent m id i w h;
  set_failed = λ m id m' id' i w h. changed_failed m id m' id' i w (w m id) h;
  set_self = λ m id i old w h. changed_self m id i old w h;
  set_other = λ m id id' i w h. changed_other m id id' i w (w m id) h;
  insert_self = λ m id i w h. placed_self m id (i ∷ w m id) w;
  insert_other = λ m id id' i w h. placed_other m id id' (i ∷ w m id) w h;
}

-- The main menu, which is empty, and an item that is checked.
abbrev tray_icon : TrayIcon menus
tray_icon = record {
  world = λ m id. [];
  has_maps = true;
  menu_items = λ id. none;
  menus = put 0 (some 1) (λ id. none);
  menu_of = λ id. none;
  current_menu_id = 2;
}

abbrev checked : ℕ → Item
checked id = record { disabled = false; checked = true }

tray_icon-Shows :
    Shows menus (λ id. codes "Debug log") (λ id. codes "Debug log") 1 tray_icon (λ id. none)
tray_icon-Shows = record {
  maps = refl;
  main = refl;
  no_submenus = λ id h. ground (arith, h);
  entries = λ id. refl;
}

run_updates-Shows_example :
    Shows menus
      (λ id. codes "Debug log")
      (λ id. codes "Debug log")
      1
      (run_updates menus
        (λ id. codes "Debug log")
        (λ id. codes "Debug log")
        1
        (2 ∷ 2 ∷ 1 ∷ [])
        checked
        tray_icon)
      (run_commands (2 ∷ 2 ∷ 1 ∷ []) checked (λ id. none))
run_updates-Shows_example =
    run_updates-Shows menus (λ id. codes "Debug log") (λ id. codes "Debug log") 1 (2 ∷ 2 ∷ 1 ∷ [])
      checked tray_icon (λ id. none) menus-IsLawful
      (record { converts = λ id. refl; inserts = λ id i w. refl }) (omega arith) tray_icon-Shows

-- The tray is ready and two agents run when `shutdown` is called.
abbrev run_with : Bool → Bool → ℕ → ℕ → Run
run_with ring begun agents count = record {
  ring_made = ring;
  cancel_made = begun;
  cancelled = false;
  started = false;
  serving = agents;
  pending = count;
  tray = starting;
  close_posted = false;
  shutdown = not_called;
}

abbrev serving_run : Run
serving_run = record (run_with true true 2 3) { tray = ready }

abbrev waiting_run : Run
waiting_run = record serving_run { cancelled = true; close_posted = true; shutdown = waiting }

agents_run : Reach Step start (run_with true true 2 3)
unfolding start
agents_run =
    next
      (next
        (next (next here (orderly (ring_made (run_with false false 0 1) refl)))
          (orderly (cancel_made (run_with true false 0 1) refl refl)))
        (orderly (agent_started (run_with true true 0 1) refl refl)))
      (orderly (agent_started (run_with true true 1 2) refl refl))

waiting_run_reached : Reach Step start waiting_run
unfolding start has_window
waiting_run_reached =
    next
      (next (next agents_run (orderly (window_made (run_with true true 2 3) refl)))
        (orderly (on_ready (record (run_with true true 2 3) { tray = windowed }) refl refl)))
      (orderly (shutdown_called serving_run refl))

ready-ne-lost : ready ≢ lost
ready-ne-lost h = cc

waiting-ne-returned : waiting ≢ returned
waiting-ne-returned h = cc

shutdown_ends_example : (t : Run) × Reach Orderly waiting_run t × (t.shutdown ≡ returned)
shutdown_ends_example = shutdown_ends waiting_run waiting_run_reached refl refl refl ready-ne-lost

-- `shutdown` is called before the tray has its window.
abbrev early_run : Run
early_run = record (run_with true true 2 3) { cancelled = true; shutdown = waiting }

early_run_reached : Reach Step start early_run
unfolding start has_window
early_run_reached = next agents_run (orderly (shutdown_called (run_with true true 2 3) refl))

shutdown_hangs_example : early_run.shutdown ≢ returned
shutdown_hangs_example =
    shutdown_hangs early_run early_run early_run_reached waiting-ne-returned (inr (refl, refl)) here
