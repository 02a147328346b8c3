-- ===== src/Collectors.antt =====
-- mom/Collectors: the plugins that read statistics of the host or of a guest.
pub mod HostMemory
pub mod GuestAnswers
pub mod Selection
pub mod Declared
pub mod GuestQemuProc
pub mod HostKsm
pub mod GuestQemuAgent
