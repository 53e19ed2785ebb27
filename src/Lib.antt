-- ===== src/Lib.antt =====
-- OmniSSHAgent is a program for Windows that stands between SSH clients and one SSH agent, the
-- service of Windows OpenSSH or a keyring of its own. It lives in the notification area and serves
-- the clients through components: a named pipe, a Pageant window and a Cygwin socket.
--
-- `run` of cmd/omnisshagent/main_windows.go reads the command line, takes a mutex, creates the
-- shutdown event, opens the log, starts the tray, loads the configuration, makes a backend and runs
-- the application, which starts the components and aggregates what they report into the state that
-- the tray shows. The tray changes the configuration file and may end the program.
--
-- The files and their code:
--   Base, Files     numbers, texts, hexadecimal and decimal notation; the file system as a
--                   parameter with the laws that are relied on, and one in memory that meets them
--   App             internal/app/state.go; App/Lifecycle: internal/app/application.go, `Run` as a
--                   step relation on its goroutines and `Shutdown`
--   Config          internal/config/config.go; Config/File: defaults.go and toggles.go there
--   Interfaces      the channel of `Ready` that the components of internal/interfaces share
--   Cygwin          internal/interfaces/cygwin/cygwin_windows.go: the text of the socket file,
--                   Cygwin/Atomic and Cygwin/SocketFiles its files, Cygwin/Handshake a client's
--                   connection, Cygwin/Start the component
--   Pageant         internal/interfaces/pageant/pageant_windows.go: Pageant/Request a request in
--                   shared memory, Pageant/Start the component
--   Pipe            internal/interfaces/opensshpipe/component_windows.go
--   Backend         internal/backend/errors.go, embedded/backend.go, openssh/client_windows.go
--   Logging         internal/logging/logging.go
--   Tray            internal/tray/tray_windows.go: Tray/Machine the window, Tray/Run `Run` and
--                   `initialize`, Tray/Icon `createIcon`; Tray/Settings `apply`, controls and messages
--                   of settings_windows.go, Tray/Keys and Tray/Password keys_windows.go; Tray/Dialog
--                   the texts of dialog_windows.go, Tray/Dialog/Windows the windows of the dialogs
--   Cli             internal/cli/cli.go
--   Singleton       internal/singleton/mutex_windows.go
--   Control         internal/control/shutdown_windows.go
--   Autostart       internal/autostart/autostart_windows.go
--   Main            cmd/omnisshagent/main_windows.go
--   Proxy           old/cmd/wsl2-ssh-agent-proxy/main.go, the relay of the former program: its packets
--                   and channels, Proxy/Requests what a client sends, Proxy/Listen the connections
--   KeyRing         old/pkg/sshkey, store and sshutil and old/app.go: the keys of the former program,
--                   its settings and its window
--   FileLog         old/pkg/filelog/filelog.go, as a step relation on its goroutines
--   Legacy          old/pkg/cygwinsocket, agentlistener, namedpipe and unix: the former sockets;
--                   Legacy/Pageant old/pkg/pageant and `checkAlreadyRunning` of old/main.go;
--                   Legacy/Menu and Legacy/TrayIcon the menu of old/pkg/wintray; Legacy/Shutdown the
--                   goroutines of old/app.go, as a step relation
--   Tests           runs and the theorems at concrete data
--
-- A function keeps its name, in snake case; a part of a long function, from one call on, is a
-- function of its own, and the last of them has the name of the code's. State is passed on and
-- returned, an error is a value of a type that names the step that failed. Where the code calls
-- Windows, package os, JSON, TOML or the agent of x/crypto, the model takes the answers as an
-- argument: a record of functions, or the list of what one call returns in turn. `Start` of a
-- component, which waits for its next client or message, stands at `waiting` where that list ends.
-- A text is the list of its code points, a byte a number, and a time a number of nanoseconds. Each
-- loop is by recursion on its list or on the number of its rounds; the two loops of the proxy that
-- read a stream have fuel, where one round takes a byte at least, so that one round more than there
-- are bytes is enough. A run of the application has no fixed length, and `work` bounds its steps.
--
-- Not modelled: internal/open, and of internal/tray what only calls Windows: where a dialog stands
-- on the screen, how a text is measured and set, and the picking of files; of the former version
-- under old, the calls of wails and of PowerShell, the window and the icon of the tray and the
-- message loop of the Pageant window; locks around single fields, and the messages of the log.
pub mod Base
pub mod Files
pub mod App
pub mod Config
pub mod Interfaces
pub mod Cygwin
pub mod Pageant
pub mod Pipe
pub mod Backend
pub mod Logging
pub mod Tray
pub mod Cli
pub mod Singleton
pub mod Control
pub mod Autostart
pub mod Main
pub mod Proxy
pub mod KeyRing
pub mod FileLog
pub mod Legacy
pub mod Tests
