-- ===== src/Tray.antt =====
-- internal/tray: the notification area. Icon has `createIcon` of tray_windows.go, Machine the state of
-- `Tray` and its window, Run the start and the end of it, Settings and its Controls the settings
-- dialog, Keys the dialog of the keys, Password the one that asks for a passphrase, and Dialog the
-- texts and windows of all three.
pub mod Icon
pub mod Machine
pub mod Settings
pub mod Keys
pub mod Password
pub mod Run
pub mod Dialog
