-- ===== src/Service.antt =====
-- node/src/service.rs and node/src/service/dev.rs: how the three kinds of node are started.
pub mod Errors
pub mod Partial
pub mod Offchain
pub mod Consensus
pub mod Hardware
pub mod Parachain
pub mod DevParachain
pub mod Development
pub mod Schedule
pub mod Follow
pub mod Start
pub mod Wiring
pub mod Peers
pub mod Warnings
pub mod Success
pub mod DevInherents
