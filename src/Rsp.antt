-- ===== src/Rsp.antt =====
-- The GDB remote serial protocol server of jotunheimkernel/src/debug/rsp.
pub mod Hex
pub mod Packet
pub mod Parse
pub mod Stop
pub mod Sections
pub mod Registers
pub mod Handlers
pub mod Server
mod Examples
