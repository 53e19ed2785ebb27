-- ===== src/Pageant.antt =====
-- internal/interfaces/pageant/pageant_windows.go. Request has `handle`, which answers one request in
-- shared memory, and `windowProc`; Start has the window's life.
pub mod Request
pub mod Start
