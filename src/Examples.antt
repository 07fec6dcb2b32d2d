-- ===== src/Examples.antt =====
-- Runs of the model and concrete instances of its theorems.
mod Fixtures
pub mod Keys
pub mod Tables
pub mod Sessions
pub mod Urls
pub mod Screen
pub mod Commands
pub mod Runs
pub mod Events
pub mod Program
pub mod Signing
