-- ===== src/Tests.antt =====
-- Runs of the theorems on concrete inputs.
pub mod Minimal
pub mod Core
pub mod Wiring
pub mod Transport
pub mod Ports
pub mod Jobs
pub mod Program
