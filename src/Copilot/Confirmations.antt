-- ===== src/Copilot/Confirmations.antt =====
-- copilot/kernel/confirmation-manager.ts: the approval gates of tool calls.
pub mod Manager
pub mod Gate
pub mod Calls
pub mod Lifecycle
pub mod Ending
pub mod Tests
