-- ===== src/Device/Tests.antt =====
-- Runs and instances of the drivers at a concrete relay, LED, timer, counter and button.
pub mod Fixtures
pub mod Outputs
pub mod Inputs
