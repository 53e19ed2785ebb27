-- ===== src/Legacy.antt =====
-- old/pkg and old/app.go: the sockets of the former program that serve and reach the agent, its
-- Pageant window, its menu, and the end of its goroutines.
pub mod Cygwin
pub mod Listener
pub mod PipeClient
pub mod Runs
pub mod Menu
pub mod Pageant
pub mod TrayIcon
pub mod Shutdown
