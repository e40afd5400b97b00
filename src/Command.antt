-- ===== src/Command.antt =====
-- node/src/command.rs: what the program does for a command line.
pub mod Settings
pub mod Node
pub mod Run
pub mod RelayChain
pub mod RelaySettings
pub mod Start
pub mod Defaults
pub mod Specs
pub mod Tools
pub mod Serves
pub mod ParaId
pub mod Success
pub mod Finish
pub mod Main
