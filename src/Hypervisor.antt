-- ===== src/Hypervisor.antt =====
-- mom/HypervisorInterfaces and mom/optional.py: how the answers of a hypervisor become statistics.
pub mod Json
pub mod Optional
pub mod Memoize
pub mod RpcBase
pub mod Libvirt
pub mod Rpc
pub mod Vdsm
