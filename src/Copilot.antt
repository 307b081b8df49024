-- ===== src/Copilot.antt =====
-- packages/modules/copilot/kernel: the agent kernel's server-side state.
pub mod ConversationStore
pub mod Confirmations
pub mod Agent
