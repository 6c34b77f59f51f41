-- ===== src/Tests.antt =====
-- Runs of the definitions on concrete inputs.
pub mod Outbox
pub mod Users
pub mod Publication
pub mod Services
pub mod Providers
pub mod Requests
pub mod Deployment
pub mod Warframe
pub mod Reminders
pub mod Demo
pub mod Fetch
