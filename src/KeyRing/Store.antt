-- ===== src/KeyRing/Store.antt =====
-- old/pkg/store/store.go: `settings.json` under the user's configuration directory.
pub mod Reload
use omni_sshagent.Base.{Bool, true, false, [], ◌++◌, Option, none, some, ok, err, if◌then◌else◌}
use omni_sshagent.Base.Text.{Text, codes}
use omni_sshagent.KeyRing.{SaveData, System, State, failed, Step, ◌>>=◌, ◌>>◌, given, act, outcome}

abbrev pub filename : Text
filename = codes "settings.json"

module _ (sys : System) where
  unfoldable pub init_setting : sys.World → SaveData
  init_setting w = record {
    keys = [];
    start_hidden = false;
    pageant_agent = true;
    named_pipe_agent = true;
    unix_socket_agent = true;
    cyg_win_agent = true;
    show_balloon = true;
    unix_socket_path = sys.join (sys.user_home_dir w) (codes "OmniSSHAgent.sock");
    cyg_win_socket_path = sys.join (sys.user_home_dir w) (codes "OmniSSHCygwin.sock");
    proxy_mode_of_named_pipe = false;
    debug_log = false;
  }

  unfoldable pub is_dir : Text → sys.World → Bool
  is_dir dir w = elim (sys.stat_is_dir dir w) [ none ↦ false | some b ↦ b ]

  -- The error is wrapped with the directory's name.
  abbrev mkdir_error : Text → Option Text → Option Text
  mkdir_error dir none = none
  mkdir_error dir (some e) = some (codes "mkdir [" ++ dir ++ codes "] err:" ++ e)

  unfoldable pub make_dir : Text → Step (State sys) Unit
  unfolding is_dir
  make_dir dir s =
      if is_dir dir s.world
      then (s, ok tt)
      else let (w, e) = sys.mkdir_all dir s.world in
        (record s { world = w }, outcome (mkdir_error dir e))

  unfoldable pub write_settings : Text → Step (State sys) Unit
  write_settings dir s =
      (given (sys.to_json s.save_data) >>= λ b. act (sys.write_file (sys.join dir filename) b)) s

  -- Behind the lookup of the directory.
  unfoldable pub save_in : Text → Step (State sys) Unit
  unfolding write_settings
  save_in dir = make_dir dir >> write_settings dir

  -- `Settings.Save`
  unfoldable pub save : Step (State sys) Unit
  unfolding save_in
  save s = elim (sys.user_config_dir s.world) [
    | err e ↦ (s, err (failed e))
    | ok config ↦ save_in (sys.join config s.app_name) s
  ]

  -- `Settings.Load`; the path of three parts is what `filepath.Join` of the first two and then of
  -- the third gives.
  unfoldable pub load : Step (State sys) Unit
  unfolding init_setting
  load s = elim (sys.user_config_dir s.world) [
    | err e ↦ (s, err (failed e))
    | ok config ↦ elim (sys.read_file (sys.join (sys.join config s.app_name) filename) s.world) [
      | err e ↦ save (record s { save_data = init_setting s.world })
      | ok b ↦ (given (sys.from_json b) >>= λ d s'. (record s' { save_data = d }, ok tt)) s
    ]
  ]
