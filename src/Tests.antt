-- ===== src/Tests.antt =====
-- Concrete inputs, and the theorems at them.
mod World
mod Node
mod Figures
mod Commands
mod Letters
mod Messages
mod Queues
mod Trust
mod Weighing
mod Configs
mod Runtimes
