-- ===== src/Tests.antt =====
-- Runs of the model on concrete inputs, and the theorems applied to them.
mod Tables
mod Drivers
mod Requests
pub mod Fixtures
pub mod Sqlite
pub mod Connection
pub mod Schemas
pub mod Rows
pub mod Completing
pub mod Copying
pub mod Migrations
mod Application
mod Tasks
mod Answers
mod Sockets
mod Endings
