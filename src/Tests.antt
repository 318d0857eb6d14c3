-- ===== src/Tests.antt =====
-- Runs of the models and of their theorems at concrete inputs.
mod Settings
mod Sessions
mod Stages
mod Exchanges
pub mod Served
pub mod Registered
mod Exporting
mod Running
mod Failing
mod Overlapping
mod Composing
mod Hiding
