-- ===== src/Provisioning.antt =====
-- Provisioning: crates/provisioning.
pub mod Commands
pub mod Parser
pub mod Provisioner
pub mod Inheritance
pub mod Devices
pub mod Constrained
pub mod Tests
pub mod Document
mod UnitTests
mod Examples
pub mod Search
pub mod OneDevice
pub mod WholeDisk
pub mod Files
