-- ===== src/Runtime.antt =====
-- The two runtimes: runtime/src and parachain-runtime/src.
pub mod Words
pub mod Units
pub mod Schedules
pub mod Configs
pub mod Deposits
pub mod Weights
pub mod Fees
pub mod Ethereum
pub mod Pallets
pub mod Precompile
pub mod Origins
pub mod Messages
pub mod Apis
