-- ===== src/Tests.antt =====
-- The theorems at concrete data, and some runs.
pub mod Store
pub mod Socket
pub mod Window
pub mod Program
pub mod Process
pub mod Relay
pub mod Keys
pub mod Former
pub mod Dialogs
