-- ===== src/Service/Wiring.antt =====
-- The parts of a node and the calls of its start that name them.
pub mod Parts
pub mod Offchain
pub mod Parachain
pub mod Sealing
pub mod Starts
