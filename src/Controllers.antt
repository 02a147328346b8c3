-- ===== src/Controllers.antt =====
-- mom/Controllers: after a policy has run, each controller reads the control variables that the
-- rules set on the entities and calls the hypervisor interface. The state is the list of those
-- calls, in order; an exception keeps the calls made before it.
pub mod Calls
pub mod Loop
pub mod Balloon
pub mod CpuTune
pub mod Ksm
