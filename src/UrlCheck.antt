-- ===== src/UrlCheck.antt =====
-- url-check: the guard of the targets, the probe and the alert of a target.
pub mod Alert
pub mod Address
pub mod Guard
pub mod Probe
pub mod Tests
pub mod Cycle
