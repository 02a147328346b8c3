-- ===== src/Samples.antt =====
-- Concrete data for tests and witnesses.
pub mod Fixed
pub mod Programs
pub mod Evaluations
pub mod Texts
pub mod Policies
pub mod Monitors
pub mod Controls
pub mod Engines
pub mod Readings
pub mod Networks
pub mod Hypervisors
pub mod Disks
pub mod Agents
pub mod Daemons
