-- ===== src/Copilot/Agent.antt =====
-- copilot/kernel/agent-runner.ts over skill-registry.ts, and consume-agent-run.ts.
pub mod Events
pub mod Schema
pub mod Registry
pub mod Admission
pub mod State
pub mod Runner
pub mod Protocol
pub mod Following
pub mod Calling
pub mod Ending
pub mod Consume
pub mod Releasing
pub mod Word
pub mod Consumption
pub mod Tests
pub mod ConsumeTests
pub mod AdmissionTests
