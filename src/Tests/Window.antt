-- ===== src/Tests/Window.antt =====
-- The window of internal/interfaces/pageant, and the tray.
use omni_sshagent.Base.{
  ◌+◌, ◌≤◌, ◌<◌, true, false, List, [], ◌∷◌, none, some, ◌≡◌, refl, ok, length, take,
}
use omni_sshagent.Files.{Bytes}
use omni_sshagent.Interfaces.{Served, served}
use omni_sshagent.App.{running}
use omni_sshagent.Pageant.Request.{
  System, max_message_len, big_endian, request_of, handle_mapped, answer, response_of, copy_onto,
}
use omni_sshagent.Pageant.Request.Bounds.{Answered, request_of_bounds, handle_mapped-Answered}
use omni_sshagent.Pageant.Start.{Windows, other, quit}
use omni_sshagent.Tray.Icon.{
  create_icon, image, le16, choose, better, score, distance, icon_size, take_entry, le32,
}
use omni_sshagent.Tray.Machine.{Tray, Answers, new_tray, wm_close}
use omni_sshagent.Tray.Machine.Runs.{Event, state_set, quitting, adding, closing, message}

-- A request of one byte in a mapping of eight, and an agent that answers at once or fails.
abbrev mapped : Bytes
mapped = 0 ∷ 0 ∷ 0 ∷ 1 ∷ 11 ∷ 7 ∷ 7 ∷ 7 ∷ []

abbrev system : Served → System
system r = record {
  memory_at = λ pointer size. [];
  text_of = λ b. b;
  utf16_error = λ t. none;
  serve_agent = λ b. (r, 0 ∷ 0 ∷ 0 ∷ 2 ∷ 12 ∷ 0 ∷ []);
}

answered_run : handle_mapped (system served) mapped ≡ (0 ∷ 0 ∷ 0 ∷ 2 ∷ 12 ∷ 0 ∷ 7 ∷ 7 ∷ [], none)
unfolding handle_mapped request_of big_endian answer response_of copy_onto
answered_run = refl

handle_mapped-Answered_example :
    Answered (system served) mapped (handle_mapped (system served) mapped)
handle_mapped-Answered_example = handle_mapped-Answered (system served) mapped

request_of_run : request_of mapped ≡ ok (0 ∷ 0 ∷ 0 ∷ 1 ∷ 11 ∷ [])
unfolding request_of big_endian
request_of_run = refl

abbrev request : Bytes
request = 0 ∷ 0 ∷ 0 ∷ 1 ∷ 11 ∷ []

request_of_bounds_example :
    (length request ≡ big_endian request + 4)
    × (0 < big_endian request)
    × (big_endian request ≤ max_message_len)
    × (length request ≤ length mapped)
    × (request ≡ take (length request) mapped)
request_of_bounds_example = request_of_bounds mapped {request = request} request_of_run

abbrev windows : Windows
windows = record {
  module_handle = none;
  window_exists = false;
  register_class = none;
  create_window = none;
  messages = other ∷ quit ∷ [];
}

-- A file with one entry, of 16 by 16 points and three bytes, behind its directory.
abbrev ico : Bytes
ico =
    0 ∷ 0 ∷ 1 ∷ 0 ∷ 1 ∷ 0 ∷ 16 ∷ 16 ∷ 0 ∷ 0 ∷ 1 ∷ 0 ∷ 32 ∷ 0 ∷ 3 ∷ 0 ∷ 0 ∷ 0 ∷ 22 ∷ 0 ∷ 0 ∷ 0 ∷ 137
    ∷ 80 ∷ 78 ∷ []

create_icon_run : create_icon ico 16 16 ≡ some (image (137 ∷ 80 ∷ 78 ∷ []))
unfolding create_icon le16 choose better score distance icon_size take_entry le32
create_icon_run = refl

abbrev answers : Answers
answers = record {
  create_default = none;
  toggle = none;
  settings = none;
  auto_start = ok true;
  set_auto_start = none;
  icon_accepted = true;
  cursor_known = true;
  has_on_quit = true;
}

abbrev tray : Tray
tray = record new_tray { window = 5; taskbar_created = 49300; icon = 6; menu = 8 }

-- The taskbar restarts, the user quits twice, and the window is closed.
abbrev events : List Event
events =
    adding answers
    ∷ message 49300 0 0 answers
    ∷ quitting
    ∷ state_set running
    ∷ quitting
    ∷ message wm_close 0 0 answers
    ∷ closing
    ∷ []

abbrev stopping : Tray
stopping = record tray { shutting_down = true }
