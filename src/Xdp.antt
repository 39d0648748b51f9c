-- ===== src/Xdp.antt =====
-- The XDP programs of kernel/samples/bpf.
pub mod Packet
pub mod Eth
pub mod Parse
pub mod Ddos
pub mod Blacklist
pub mod Filter
pub mod Vlan
pub mod Tags
pub mod Change
pub mod Untag
pub mod Hash
pub mod RedirectCpu
pub mod FlowHash
pub mod RoundRobin
pub mod Verdicts
pub mod Spread
pub mod Symmetric
pub mod Ttl
pub mod DropPattern
pub mod Pattern
pub mod Trace
pub mod Totals
pub mod MemAccess
pub mod Echo
mod Examples
