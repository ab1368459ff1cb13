-- ===== src/Write.antt =====
-- aff4tools: src/write, the writer of containers.
pub mod Bevy
pub mod SliceMap
