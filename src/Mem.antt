-- ===== src/Mem.antt =====
-- Physical memory: jotunheimkernel/src/mem.
pub mod BoundedVec
pub mod Page
pub mod Reserved
pub mod Bump
pub mod Usable
pub mod Frames
pub mod Mapping
pub mod Heap
mod Examples
