-- ===== src/User.antt =====
-- The user-space tools of kernel/samples/bpf, and the XDP programs that read the maps they write.
pub mod Bpf
pub mod Blacklist
pub mod PortBits
pub mod Ports
pub mod Sources
pub mod Addresses
pub mod Cmdline
pub mod Update
pub mod Cpus
pub mod Setup
pub mod Spread
pub mod Collect
pub mod Events
mod Tables
mod Examples
