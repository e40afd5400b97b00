-- ===== src/Service/Start.antt =====
-- The starts of node/src/service.rs and node/src/service/dev.rs and their schedules.
pub mod Parachain
pub mod DevParachain
pub mod Development
