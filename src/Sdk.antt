-- ===== src/Sdk.antt =====
-- What the node takes from the Polkadot SDK: the values that it passes around (`Types`), the
-- parameters of the calls that it makes (`Params`), and the calls with their replies (`Calls`).
pub mod Json
mod Types
mod Params
mod Calls
pub use Types.*
pub use Params.*
pub use Calls.*
