-- ===== src/Ui.antt =====
-- The terminal UI (src/ui): the event handler, the commands, and the screen as a tree of calls to FTXUI.
pub mod Navigation
pub mod Command
pub mod Render
pub mod App
