-- ===== src/Copilot/ConversationStore.antt =====
-- copilot/kernel/conversation-store.ts: conversations, the run lock and the replay of finished runs.
pub mod State
pub mod Eviction
pub mod Operations
pub mod Outcomes
pub mod Bounds
pub mod Isolation
pub mod Replay
pub mod Lock
pub mod Retention
pub mod Tests
